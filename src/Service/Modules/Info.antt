-- ===== src/Service/Modules/Info.antt =====
-- The structure in front of a request for a module's bytes.
use softupdate.Prelude.{ℕ, ◌+◌, ◌^◌, ◌<◌, ◌≡◌, refl, List, ◌++◌, arith, length, drop}
use softupdate.Prelude.Int.{pos}
use softupdate.Client.Frame.{le4, le4_value}
use softupdate.Service.State.{int_at, int_value, int_bytes}

-- A request's `MODULEINFO`.
abbrev pub module_info : ℕ → ℕ → ℕ → List ℕ
module_info start len index =
    int_bytes (pos start) ++ (int_bytes (pos len) ++ int_bytes (pos index))

module _ (start len index : ℕ) (more : List ℕ) (low : start < 2 ^ 31) (short : len < 2 ^ 31)
    (small : index < 2 ^ 31) where
  pub int_at-start : int_at 0 (module_info start len index ++ more) ≡ pos start
  unfolding int_at int_value int_bytes le4 le4_value
  int_at-start = ground arith

  pub int_at-len : int_at 1 (module_info start len index ++ more) ≡ pos len
  unfolding int_at int_value int_bytes le4 le4_value
  int_at-len = ground arith

  pub int_at-index : int_at 2 (module_info start len index ++ more) ≡ pos index
  unfolding int_at int_value int_bytes le4 le4_value
  int_at-index = ground arith

  pub length-module_info : length (module_info start len index ++ more) ≡ 12 + length more
  unfolding int_bytes le4
  length-module_info = omega arith

  pub drop-module_info : drop 12 (module_info start len index ++ more) ≡ more
  unfolding int_bytes le4
  drop-module_info = refl
