-- ===== src/Session/Logging/EndLaws.antt =====
-- When `endlogging` takes the log file for untouched.
use rootsh.Base.{◌≡◌, ◌≢◌, ◌↔◌, refl, Bool, true, false, ◌&&◌, Option, none, some, ◌∷◌, ◌==◌, arith}
use rootsh.Text.{Bytes}
use rootsh.Session.Calls.{System, Stat, stat_path}
use rootsh.Session.State.{Session, returned, pure, ◌>>=◌}
use rootsh.Session.Rules.{>>=-returned}
use rootsh.Session.Logging.End.{
  remove_impostor, check_handle, compare_identity, missing_name, examine_name, examine,
  file_recreated,
}

-- What the name gives is the file that was opened, and the open file is there.
pub record IsUntouched (sys : System) (s : Session) : Type 0 where
  pub named : Stat
  pub handle : Stat
  pub found : sys.stat s.calls s.log_file_name ≡ some named
  pub inode_same : s.log_inode ≡ named.inode
  pub device_same : s.log_dev ≡ named.device
  pub handle_found : sys.fstat (stat_path s.log_file_name ∷ s.calls) s.log_file ≡ some handle

missing_name-tampered : (st : Option Stat) (t : Session) → (missing_name st t).0 ≢ returned none
unfolding missing_name
missing_name-tampered none t h = cc
missing_name-tampered (some st) t h = cc

check_handle-found :
    (st : Option Stat) (t : Session)
    → (check_handle st t).0 ≡ returned none
    → (handle : Stat) × (st ≡ some handle)
unfolding check_handle
check_handle-found none t h = cc
check_handle-found (some st) t h = (st, refl)

recreated-tampered :
    (sys : System) (name : Bytes) (t : Session)
    → (compare_identity sys name false t).0 ≢ returned none
unfolding compare_identity
recreated-tampered sys name t h =
    let (_, _, message) =
      >>=-returned (remove_impostor sys name) (λ _. pure (some file_recreated)) t h in
    some_message message
  where
    some_message : returned (some file_recreated) ≢ returned none
    some_message k = cc

module _ (sys : System) (s : Session) where
  abbrev after_stat : Session
  after_stat = record s { calls = stat_path s.log_file_name ∷ s.calls }

  abbrev identity : Stat → Bool
  identity st = s.log_inode == st.inode && s.log_dev == st.device

  compare-IsUntouched :
      (st : Stat) (same : Bool)
      → sys.stat s.calls s.log_file_name ≡ some st
      → identity st ≡ same
      → (compare_identity sys s.log_file_name same after_stat).0 ≡ returned none
      → IsUntouched sys s
  unfolding compare_identity ◌>>=◌
  compare-IsUntouched st true found same h =
      let (handle, opened) = check_handle-found (sys.fstat after_stat.calls s.log_file) _ h in
      record {
        named = st;
        handle = handle;
        found = found;
        inode_same = ground arith;
        device_same = ground arith;
        handle_found = opened;
      }
  compare-IsUntouched st false found same h =
      absurd (recreated-tampered sys s.log_file_name after_stat h)

  examine_name-IsUntouched :
      (found : Option Stat)
      → sys.stat s.calls s.log_file_name ≡ found
      → (examine_name sys s.log_file_name found after_stat).0 ≡ returned none
      → IsUntouched sys s
  unfolding examine_name ◌>>=◌
  examine_name-IsUntouched none e h =
      absurd (missing_name-tampered (sys.fstat after_stat.calls s.log_file) _ h)
  examine_name-IsUntouched (some st) e h = compare-IsUntouched st (identity st) e refl h

  -- `endlogging` has no message about the log file exactly if the file is untouched.
  pub examine-IsUntouched : ((examine sys s).0 ≡ returned none) ↔ IsUntouched sys s
  unfolding examine examine_name compare_identity check_handle ◌>>=◌
  examine-IsUntouched = (
    λ h. examine_name-IsUntouched (sys.stat s.calls s.log_file_name) refl h,
    λ u.
        let same : identity u.named ≡ true = ground (arith, u.inode_same, u.device_same) in
        simp (u.found, same, u.handle_found),
  )
