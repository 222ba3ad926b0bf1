-- ===== src/Https/Service/Limit.antt =====
-- The connections of one loop as a system of steps, and the limit of them.
use libwebsocket_component.Prelude.{
  ℕ, suc, ◌+◌, ◌^◌, ◌≤◌, ◌<◌, ◌≡◌, true, false, List, [], ◌∷◌, Option, ◌==◌, if◌then◌else◌, length,
  done,
}
use libwebsocket_component.Buffer.{Buffer}
use libwebsocket_component.Https.Buckets.{holds, on_timer}
use libwebsocket_component.Https.Query.{Text}
use libwebsocket_component.Https.Orders.{OrderEnv}
use libwebsocket_component.Https.Service.Keeping.{is_some}
use libwebsocket_component.Https.Service.{
  HttpRequests, ConnContext, Server, connection_up, connection_down, on_http_message,
  async_http_handler, on_write_complete,
}

-- The connections that are open, in a list, and the server.
abbrev pub remove : ℕ → List ℕ → List ℕ
remove c [] = []
remove c (d ∷ ds) = if d == c then ds else d ∷ remove c ds

pub record World (H : Type 0) : Type 0 where
  pub ups : List ℕ
  pub server : Server H

module _ {H : Type 0} where
  -- The open connections that have a context.
  abbrev pub admitted : (ℕ → Option (ConnContext H)) → List ℕ → ℕ
  admitted f [] = 0
  admitted f (c ∷ cs) = if is_some (f c) then suc (admitted f cs) else admitted f cs

  -- The steps of the connections of one loop. The numbers of descriptors are an `int`, so there are
  -- fewer than 2 ^ 31 connections.
  pub data Step (req : HttpRequests H) (env : OrderEnv) : World H → World H → Type 0 where
    up :
        (c : ℕ) (cs : List ℕ) (s t : Server H)
        → holds c cs ≡ false
        → length cs + 1 < 2 ^ 31
        → connection_up req c s ≡ done t
        → Step req env (record { ups = cs; server = s }) (record { ups = c ∷ cs; server = t })
    down :
        (c : ℕ) (cs : List ℕ) (s : Server H)
        → holds c cs ≡ true
        → Step req env
            (record { ups = cs; server = s })
            (record { ups = remove c cs; server = connection_down c s })
    message :
        (c : ℕ) (peer : Text) (buf rest : Buffer) (cs : List ℕ) (s t : Server H)
        → on_http_message req peer c buf s ≡ done (t, rest)
        → Step req env (record { ups = cs; server = s }) (record { ups = cs; server = t })
    handler :
        (c peer : ℕ) (cs : List ℕ) (s t : Server H)
        → async_http_handler req env peer c s ≡ done t
        → Step req env (record { ups = cs; server = s }) (record { ups = cs; server = t })
    written :
        (c : ℕ) (cs : List ℕ) (s : Server H)
        → Step req env
            (record { ups = cs; server = s })
            (record { ups = cs; server = on_write_complete c s })
    tick :
        (cs : List ℕ) (s : Server H)
        → Step req env
            (record { ups = cs; server = s })
            (record { ups = cs; server = record s { wheel = on_timer s.wheel } })

  pub data Reach (req : HttpRequests H) (env : OrderEnv) (w : World H) : World H → Type 0 where
    here : Reach req env w w
    next : {v u : World H} → Reach req env w v → Step req env v u → Reach req env w u

  -- The count of connections is right, no more of them than the limit have a context, and one that
  -- is not open has none.
  pub record IsLimited (bound : ℕ) (w : World H) : Type 0 where
    pub counted : w.server.num_connected ≡ length w.ups
    pub bounded : length w.ups < 2 ^ 31
    pub limit : w.server.max_connections ≡ bound
    pub few : admitted w.server.context w.ups ≤ bound
    pub none_else : (d : ℕ) → holds d w.ups ≡ false → is_some (w.server.context d) ≡ false
