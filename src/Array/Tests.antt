-- ===== src/Array/Tests.antt =====
-- Tests of arrays: the entries 5 and 9, and no room for more.
use sdp_project_c.Common.{
  ℕ, zero, suc, ◌+◌, ◌*◌, ◌<◌, ◌≡◌, refl, ◌∙◌, inl, Returns, arith, ◌==◌, if◌then◌else◌,
}
use sdp_project_c.Array.{load_word, store_word, Array, array_remove}
use sdp_project_c.Array.Words.{load_word-store_word, load_word-store_word_apart}
use sdp_project_c.Array.Entries.{Holds, excise}
use sdp_project_c.Array.Slide.{array_remove-Holds}

abbrev pair : Array
pair = record { v = 0x1000; num = 2; max = 2 }

abbrev contents : ℕ → ℕ
contents i = if i == 0 then 5 else 9

abbrev memory : ℕ → ℕ
memory = store_word 0x1000 5 (store_word 0x1004 9 (λ a. 0))

pair-Holds : Holds 2 contents pair memory
pair-Holds = record { num = refl; room = omega arith; entries = entries }
  where
    entries : (i : ℕ) → i < 2 → load_word memory (0x1000 + i * 4) ≡ contents i
    entries zero lt = load_word-store_word 0x1000 5 (store_word 0x1004 9 (λ a. 0)) (omega arith)
    entries (suc zero) lt =
        load_word-store_word_apart 0x1000 0x1004 5 (store_word 0x1004 9 (λ a. 0))
          (inl (omega arith))
        ∙ load_word-store_word 0x1004 9 (λ a. 0) (omega arith)
    entries (suc (suc i)) lt = absurd (omega arith)

abbrev kmalloc : ℕ → ℕ
kmalloc size = 0x2000

array_remove-Holds_example :
    Returns (array_remove 0 pair memory) (λ r. Holds 1 (excise 0 contents) r.0 r.1)
array_remove-Holds_example =
    array_remove-Holds 0 2 contents pair memory pair-Holds (omega arith) (omega arith)
