-- ===== src/Thread/Wakes.antt =====
-- Waking the threads of a wait channel, one by one or all at once.
use sdp_project_c.Common.{
  ℕ, zero, suc, ◌≡◌, refl, false, Result, ok, err, ◌>>=◌, List, [], ◌∷◌, ◌++◌, length, sym, ◌∙◌,
  append-nil, append_assoc,
}
use sdp_project_c.Spinlock.{Spinlock, held_here, spinlock_do_i_hold}
use sdp_project_c.Thread.{
  Cpu, thread_make_runnable, wake_first, move_each, wake_each, wchan_wakeone, wchan_wakeall,
}

-- `wchan_wakeone`, `n` times.
pub wake_times : ℕ → List ℕ → Spinlock → Cpu → Result (List ℕ × Cpu)
wake_times zero wc_threads lk cpu = ok (wc_threads, cpu)
wake_times (suc n) wc_threads lk cpu = do
  (wc_threads', cpu') ← wchan_wakeone wc_threads lk cpu
  wake_times n wc_threads' lk cpu'

-- Both go on alike after the first thread.
wake_after :
    (m : Result Cpu) (list : List ℕ)
    → ((cpu' : Cpu)
        → (wake_each list cpu' >>= λ cpu''. ok ([], cpu''))
          ≡ wake_times (length list) list held_here cpu')
    → ((m >>= λ cpu'. wake_each list cpu') >>= λ cpu''. ok ([], cpu'')) ≡ (
        (◌>>=◌ {After = List ℕ × Cpu} m (λ cpu'. ok (list, cpu'))) >>= λ x.
        wake_times (length list) x.0 held_here x.1)
wake_after (err panic) list rest = refl
wake_after (ok cpu') list rest = rest cpu'

wake_each-wake_times :
    (wc_threads : List ℕ) (cpu : Cpu)
    → (wake_each wc_threads cpu >>= λ cpu'. ok ([], cpu'))
      ≡ wake_times (length wc_threads) wc_threads held_here cpu
unfolding wake_each wake_times wchan_wakeone wake_first spinlock_do_i_hold
wake_each-wake_times [] cpu = refl
wake_each-wake_times (target ∷ list) cpu =
    wake_after (thread_make_runnable target false cpu) list (wake_each-wake_times list)

-- The first loop leaves none behind, and keeps their order.
move_each-all :
    (wc_threads list : List ℕ)
    → ◌≡◌ {A = List ℕ × List ℕ} (move_each wc_threads list) ([], list ++ wc_threads)
unfolding move_each
move_each-all [] list = λ i. ([], sym (append-nil list) i)
move_each-all (target ∷ ts) list =
    move_each-all ts (list ++ (target ∷ [])) ∙ (λ i. ([], append_assoc list (target ∷ []) ts i))

-- Under the lock of the channel, `wchan_wakeall` does what `wchan_wakeone` does as often as threads sleep:
-- the same threads become runnable in the same order, and none sleeps any more.
pub wchan_wakeall-wchan_wakeone :
    (wc_threads : List ℕ) (cpu : Cpu)
    → wchan_wakeall wc_threads held_here cpu
      ≡ wake_times (length wc_threads) wc_threads held_here cpu
unfolding wchan_wakeall spinlock_do_i_hold
wchan_wakeall-wchan_wakeone wc_threads cpu =
    rw (move_each-all wc_threads []) (wake_each-wake_times wc_threads cpu)
