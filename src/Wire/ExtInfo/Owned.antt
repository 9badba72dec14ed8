-- ===== src/Wire/ExtInfo/Owned.antt =====
-- crates/tatami_ssh_wire/src/ext_info.rs: the copy of a validated message.
use tatami_ssh.Prelude.{ℕ, suc, ◌≡◌, refl, sym, ◌∙◌, arith, List, Result, ok, err, length}
use tatami_ssh.Wire.ExtInfo.{ExtInfo, ExtInfoError, Pair, validate, extensions, to_owned}
use tatami_ssh.Wire.ExtInfo.Walk.{Valid, validate-Valid, collect-Pairs}

-- What `to_owned` returns for what `validate` returned.
pub data Owns (e : ExtInfo) (max : ℕ)
    : Result ExtInfoError ℕ → Result ExtInfoError (List Pair) → Type 0 where
  refused : (x : ExtInfoError) → Owns e max (err x) (err x)
  copied : (ps : List Pair) → Valid e max ps → Owns e max (ok (length ps)) (ok ps)

pub to_owned-Valid :
    (e : ExtInfo) (max : ℕ) (ps : List Pair) (n : ℕ)
    → validate e max ≡ ok n
    → Valid e max ps
    → to_owned e max ≡ ok ps
unfolding to_owned extensions
to_owned-Valid e max ps n h v =
    rw (h, to_owned, ← v.count)
      (collect-Pairs (suc (length ps)) e.body v.end ps v.pairs (omega arith))

to_owned-err :
    (e : ExtInfo) (max : ℕ) (x : ExtInfoError) → validate e max ≡ err x → to_owned e max ≡ err x
unfolding to_owned
to_owned-err e max x h = rw (h, to_owned) refl

owns :
    (e : ExtInfo) (max : ℕ) (r : Result ExtInfoError ℕ)
    → validate e max ≡ r
    → Owns e max r (to_owned e max)
owns e max (err x) h = rw (to_owned-err e max x h) (refused x)
owns e max (ok n) h =
    let (ps, v, k) = validate-Valid e max n h in
    let same : n ≡ length ps = k ∙ sym v.count in
    rw (same, to_owned-Valid e max ps n h v) (copied ps v)

-- `to_owned` fails exactly where `validate` does, with the same error. Otherwise it copies all the
-- pairs, in order: their number is the one that `validate` returned and is within the limit, they
-- are read one behind the other from the message, and nothing follows them. The iterator behind it
-- never fails on a validated message.
pub to_owned-Owns : (e : ExtInfo) (max : ℕ) → Owns e max (validate e max) (to_owned e max)
to_owned-Owns e max = owns e max (validate e max) refl
