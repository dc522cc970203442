-- ===== src/Uio/Tests.antt =====
-- Tests of `uiomove` and `uiomovezeros`: two buffers of three bytes and one byte, and five bytes to move.
use sdp_project_c.Common.{inr, ltb, if◌then◌else◌, ◌≡◌, refl, false, Returns, arith, [], ◌∷◌}
use sdp_project_c.Uio.{Move, uio_read, uio_sysspace, uiomove, uiomovezeros}
use sdp_project_c.Uio.Left.{Apart}
use sdp_project_c.Uio.Zeros.{Zeros, Zeroed, uiomovezeros-Zeroed}
use sdp_project_c.Uio.Bytes.{after_all}
use sdp_project_c.Uio.Rounds.{IsValid, Keeps, room}
use sdp_project_c.Uio.Moves.{uiomove-Keeps}

abbrev five : Move
five = record {
  ptr = 100;
  n = 5;
  uio = record {
    uio_iov = record { iov_base = 200; iov_len = 3 } ∷ record { iov_base = 300; iov_len = 1 } ∷ [];
    uio_offset = 0;
    uio_resid = 4;
    uio_segflg = uio_sysspace;
    uio_rw = uio_read;
  };
  memory = λ a. a;
}

five-IsValid : IsValid five
unfolding room
five-IsValid = record { own = refl; exact = refl; small = omega arith }

uiomove-Keeps_example :
    Returns
      (uiomove (λ a. false) five)
      (λ r. (r.0 ≡ 0) × Keeps 4 five r.1 × (r.1.memory ≡ after_all five))
uiomove-Keeps_example = uiomove-Keeps (λ a. false) five five-IsValid

-- Zeros up to the address 200, and sevens behind.
abbrev sevens : Move
sevens = record five { memory = λ a. if ltb a 200 then 0 else 7 }

sevens-Zeros : Zeros sevens
unfolding room Apart
sevens-Zeros = record {
  valid = record { own = refl; exact = refl; small = omega arith };
  reads = refl;
  zeros = λ o lt. ground arith;
  apart = (inr (omega arith), (inr (omega arith), tt));
}

uiomovezeros-Zeroed_example :
    Returns (uiomovezeros (λ a. false) sevens) (λ r. (r.0 ≡ 0) × Zeroed 4 sevens r.1)
uiomovezeros-Zeroed_example = uiomovezeros-Zeroed (λ a. false) sevens sevens-Zeros
