-- ===== src/Prelude/Maps.antt =====
-- Arrays of a struct, by index, as functions.
use xis.Prelude.Tests.{◌==◌, if◌then◌else◌}
use Prim.Native.Nat.{ℕ}

abbrev pub update {ℓ} : {A : Type ℓ} → (ℕ → A) → ℕ → A → ℕ → A
update f i a j = if i == j then a else f j
