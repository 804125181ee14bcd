-- ===== src/Certikos/Nospec.antt =====
-- array_index_nospec, as sys_spawn calls it.
use serval_sosp.Base.{ℕ, ◌<◌, ◌≡◌, refl, true, ◌==◌, ==_iff}
use serval_sosp.Base.Bits.{all_below, all_below_sound}
use serval_sosp.Certikos.State.{nr_procs}
use serval_sosp.Certikos.Traps.{array_index_nospec}

nospec_table : all_below nr_procs (λ i. array_index_nospec i nr_procs == i) ≡ true
unfolding all_below array_index_nospec
nospec_table = refl

-- Masking an index that is in bounds gives the index itself.
pub array_index_nospec-in_bounds : (i : ℕ) → i < nr_procs → array_index_nospec i nr_procs ≡ i
array_index_nospec-in_bounds i h = (==_iff _ i).0 (all_below_sound nr_procs _ i nospec_table h)
