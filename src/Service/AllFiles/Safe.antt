-- ===== src/Service/AllFiles/Safe.antt =====
-- `MSG_GETALLFILEINFO` leaves the server's fields alone.
use softupdate.Prelude.{ℕ, refl, Option, none, some, List, []}
use softupdate.Board.Hex.{c_str}
use softupdate.Service.State.{System, Server}
use softupdate.Service.AllFiles.{
  FilePair, Listing, going, given_up, broken, closed, all_pairs, get_all_file_info, file_pairs,
}
use softupdate.Service.Safety.{IsSafe, SafeAfter}

module _ {W : Type 0} (sys : System W) (s : Server) (h : IsSafe s) where
  closed-SafeAfter : (l : Listing W) → SafeAfter (closed sys s l)
  unfolding closed
  closed-SafeAfter (going buf w) = h
  closed-SafeAfter (given_up w) = h
  closed-SafeAfter broken = refl

  all_pairs-SafeAfter : (o : Option (List FilePair)) (w : W) → SafeAfter (all_pairs sys o s w)
  unfolding all_pairs
  all_pairs-SafeAfter none w = refl
  all_pairs-SafeAfter (some ps) w = closed-SafeAfter _

  pub get_all_file_info-SafeAfter :
      (bytes : List ℕ) (w : W) → SafeAfter (get_all_file_info sys bytes s w)
  unfolding get_all_file_info
  get_all_file_info-SafeAfter bytes w = all_pairs-SafeAfter (file_pairs [] none (c_str bytes)) w
