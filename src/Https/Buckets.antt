-- ===== src/Https/Buckets.antt =====
-- `ApiServer::Entry` and `ApiServer::ConnBucket` of https/ApiServer.h: the time wheel that closes
-- connections on which nothing is asked, with the destructor of an entry in https/ApiServer.cpp.
pub mod Keeping
pub mod Updates
pub mod Others
pub mod Expiry
pub mod Timeouts
pub mod Shape
pub mod Locked
use libwebsocket_component.Prelude.{
  ℕ, zero, suc, ◌+◌, ◌-◌, Bool, true, false, ◌||◌, List, [], ◌∷◌, ◌++◌, ltb, ◌==◌, if◌then◌else◌,
}

pub data EntryType : Type 0 where
  http_ty tcp_ty : EntryType

-- An entry has the number of the connection that it is made for.
pub record Entry : Type 0 where
  pub ty : EntryType
  pub locked : Bool

-- What is done to a connection.
pub data Closing : Type 0 where
  timeout_response : ℕ → Closing
  force_close : ℕ → Closing

-- The buckets, first the one that is next to go; the entries; the shared pointers to an entry that
-- are in no bucket; the connections that are there; what has been done to connections.
pub record Wheel : Type 0 where
  pub buckets : List (List ℕ)
  pub entry : ℕ → Entry
  pub held : ℕ → ℕ
  pub conn : ℕ → Bool
  pub closings : List Closing

abbrev pub replace {ℓ} : {A : Type ℓ} → (ℕ → A) → ℕ → A → ℕ → A
replace f c a d = if d == c then a else f d

abbrev pub holds : ℕ → List ℕ → Bool
holds c [] = false
holds c (d ∷ ds) = d == c || holds c ds

abbrev pub in_buckets : ℕ → List (List ℕ) → Bool
in_buckets c [] = false
in_buckets c (b ∷ bs) = holds c b || in_buckets c bs

-- `buckets_.resize(size)`.
abbrev pub empty_buckets : ℕ → List (List ℕ)
empty_buckets zero = []
empty_buckets (suc size) = [] ∷ empty_buckets size

-- An `unordered_set` takes an entry once.
abbrev pub insert : ℕ → List ℕ → List ℕ
insert c b = if holds c b then b else c ∷ b

-- `buckets_.back().insert(entry)`, with a bucket or more.
unfoldable pub insert_back : ℕ → List (List ℕ) → List (List ℕ)
insert_back c [] = []
insert_back c (b ∷ []) = insert c b ∷ []
insert_back c (b ∷ d ∷ bs) = b ∷ insert_back c (d ∷ bs)

-- Some shared pointer to the entry is left.
abbrev pub alive : ℕ → Wheel → Bool
alive c w = in_buckets c w.buckets || ltb 0 (w.held c)

unfoldable pub on_timeout_expired : ℕ → EntryType → Wheel → Wheel
on_timeout_expired c http_ty w = record w { closings = timeout_response c ∷ w.closings }
on_timeout_expired c tcp_ty w = record w { closings = force_close c ∷ w.closings }

-- `~Entry`: a request that is being answered keeps its connection.
unfoldable pub destroy : ℕ → Wheel → Wheel
destroy c w =
    if w.conn c then if (w.entry c).locked then w else on_timeout_expired c (w.entry c).ty w else w

-- A shared pointer to the entry goes.
unfoldable pub release : ℕ → Wheel → Wheel
release c w = if alive c w then w else destroy c w

unfoldable pub release_all : List ℕ → Wheel → Wheel
release_all [] w = w
release_all (c ∷ cs) w = release_all cs (release c w)

-- `buckets_.push_back(Bucket())` on a ring that is full: the first bucket goes.
unfoldable pub on_timer : Wheel → Wheel
on_timer w = elim w.buckets [
  | [] ↦ w
  | front ∷ rest ↦ release_all front (record w { buckets = rest ++ ([] ∷ []) })
]

unfoldable pub push_bucket : ℕ → Wheel → Wheel
push_bucket c w = if w.conn c then record w { buckets = insert_back c w.buckets } else w

unfoldable pub update_bucket : ℕ → Wheel → Wheel
update_bucket c w = if w.conn c then record w { buckets = insert_back c w.buckets } else w

-- `weakEntry.lock()` with `setLocked()`, and the end of the handler, which lets the entry go.
unfoldable pub lock_entry : ℕ → Wheel → Wheel
lock_entry c w =
    if alive c w
    then record w {
      held = replace w.held c (w.held c + 1);
      entry = replace w.entry c (record (w.entry c) { locked = true });
    }
    else w

unfoldable pub unlock_entry : ℕ → Wheel → Wheel
unlock_entry c w = release c (record w { held = replace w.held c (w.held c - 1) })

-- A new connection has a new entry, and a connection goes.
unfoldable pub new_entry : ℕ → EntryType → Wheel → Wheel
new_entry c t w = push_bucket c (record w {
  entry = replace w.entry c (record { ty = t; locked = false });
  conn = replace w.conn c true;
})

unfoldable pub conn_gone : ℕ → Wheel → Wheel
conn_gone c w = record w { conn = replace w.conn c false }

-- What happens in a loop, in order. A message updates the entry if its weak pointer can be locked.
pub data Happening : Type 0 where
  ticks : Happening
  updates locks unlocks goes : ℕ → Happening
  comes : ℕ → EntryType → Happening

unfoldable pub happen : Happening → Wheel → Wheel
happen ticks w = on_timer w
happen (updates c) w = if alive c w then update_bucket c w else w
happen (locks c) w = lock_entry c w
happen (unlocks c) w = unlock_entry c w
happen (goes c) w = conn_gone c w
happen (comes c t) w = new_entry c t w

unfoldable pub run : List Happening → Wheel → Wheel
run [] w = w
run (h ∷ hs) w = run hs (happen h w)

abbrev pub count_ticks : List Happening → ℕ
count_ticks [] = 0
count_ticks (ticks ∷ hs) = suc (count_ticks hs)
count_ticks (_ ∷ hs) = count_ticks hs
