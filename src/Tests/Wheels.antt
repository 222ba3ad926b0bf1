-- ===== src/Tests/Wheels.antt =====
-- A wheel of three buckets with the connections 1 and 2.
use libwebsocket_component.Prelude.{◌≡◌, refl, arith, true, false, [], ◌∷◌}
use libwebsocket_component.Https.Buckets.{
  http_ty, timeout_response, Wheel, alive, update_bucket, ticks, updates, locks, unlocks, happen,
  run, on_timer, release_all, release, destroy, on_timeout_expired,
}
use libwebsocket_component.Https.Buckets.Keeping.{closings_of}
use libwebsocket_component.Https.Buckets.Updates.{closings_of-update_bucket}
use libwebsocket_component.Https.Buckets.Expiry.{Rests}
use libwebsocket_component.Https.Buckets.Timeouts.{closings_of-idle}
use libwebsocket_component.Https.Buckets.Locked.{closings_of-locked}
use libwebsocket_component.Https.Buckets.Shape.{IsShaped}

abbrev waiting : Wheel
waiting = record {
  buckets = (1 ∷ []) ∷ [] ∷ (2 ∷ []) ∷ [];
  entry = λ c. record { ty = http_ty; locked = false };
  held = λ c. 0;
  conn = λ c. true;
  closings = [];
}

-- Connection 1 goes at the first tick, connection 2 at the third.
three_ticks :
    (run (ticks ∷ ticks ∷ ticks ∷ []) waiting).closings
    ≡ timeout_response 2 ∷ timeout_response 1 ∷ []
unfolding run happen on_timer release_all release destroy on_timeout_expired
three_ticks = refl

closings_of-update_bucket_example :
    (alive 1 (run (ticks ∷ locks 2 ∷ ticks ∷ []) (update_bucket 1 waiting)) ≡ true)
    × (closings_of 1 (run (ticks ∷ locks 2 ∷ ticks ∷ []) (update_bucket 1 waiting)).closings ≡ [])
closings_of-update_bucket_example =
    closings_of-update_bucket 1 (ticks ∷ locks 2 ∷ ticks ∷ []) waiting refl (omega arith)

waiting-Rests : Rests 2 http_ty waiting
waiting-Rests = (refl, refl, refl, omega arith)

closings_of-idle_example :
    closings_of 2 (run (ticks ∷ updates 1 ∷ ticks ∷ locks 1 ∷ ticks ∷ []) waiting).closings
    ≡ timeout_response 2 ∷ []
closings_of-idle_example =
    closings_of-idle 2 http_ty (ticks ∷ updates 1 ∷ ticks ∷ locks 1 ∷ ticks ∷ []) waiting
      waiting-Rests refl (ground arith) (omega arith)

closings_of-locked_example :
    closings_of 2 (run (ticks ∷ unlocks 2 ∷ ticks ∷ ticks ∷ []) (happen (locks 2) waiting)).closings
    ≡ closings_of 2 (happen (locks 2) waiting).closings
closings_of-locked_example =
    closings_of-locked 2 (ticks ∷ unlocks 2 ∷ ticks ∷ ticks ∷ []) waiting refl (ground arith)

waiting-IsShaped : IsShaped 3 waiting.buckets
waiting-IsShaped = (refl, λ c. ground arith)
