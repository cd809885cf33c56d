-- ===== src/Base/Int.antt =====
-- Python's int where the code can see a negative number, and the slice `xs[:n]` over it.
use Prim.Native.Nat.{ℕ, suc, ◌-◌}
use mathlib.Core.Bool.{Bool, false}
use mathlib.Core.List.{List}
use samples_python.Base.Tests.{ltb}
use samples_python.Base.Lists.{length, take}

-- `negsuc n` is -(n + 1).
pub data ℤ : Type 0 where
  pos : ℕ → ℤ
  negsuc : ℕ → ℤ

-- `n < z` for a length n
abbrev pub lt_int : ℕ → ℤ → Bool
lt_int n (pos m) = ltb n m
lt_int n (negsuc m) = false

-- `xs[:z]`: a negative bound counts from the end.
abbrev pub slice_to {ℓ} : {A : Type ℓ} → ℤ → List A → List A
slice_to (pos n) xs = take n xs
slice_to (negsuc n) xs = take (length xs - suc n) xs
