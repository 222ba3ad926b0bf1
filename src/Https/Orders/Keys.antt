-- ===== src/Https/Orders/Keys.antt =====
-- The comparison of the key of a request.
use libwebsocket_component.Prelude.{
  ◌≤◌, ◌≡◌, refl, arith, true, [], ◌∷◌, ◌++◌, ◌==◌, ==_iff, min, length,
}
use libwebsocket_component.Https.Query.{Text}
use libwebsocket_component.Https.Numbers.{ℤ}
use libwebsocket_component.Https.Orders.{OrderEnv, to_string, same_nocase, lower}
use libwebsocket_component.Https.Orders.Handlers.{key_matches}

same_nocase-front : (s r : Text) → same_nocase (length s) (s ++ r) s ≡ true
unfolding same_nocase
same_nocase-front [] r = refl
same_nocase-front (c ∷ s) r =
    let same : (lower c == lower c) ≡ true = (==_iff (lower c) (lower c)).1 refl in
    rw (same, same_nocase-front s r) refl

module _ (env : OrderEnv) where
  open env use {md5_encode32}

  -- Any front part of the right digest passes for it, also one of a single character: the key is
  -- compared only over its own length.
  pub key_matches-front :
      (agent_id : ℤ) (timestamp md5code key rest : Text)
      → length key ≤ 32
      → md5_encode32 ((to_string agent_id ++ timestamp) ++ md5code) ≡ key ++ rest
      → key_matches env agent_id timestamp md5code key ≡ true
  unfolding key_matches
  key_matches-front agent_id timestamp md5code key rest h e =
      let n : min 32 (length key) ≡ length key = omega arith in
      rw (e, n) (same_nocase-front key rest)
