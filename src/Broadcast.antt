-- ===== src/Broadcast.antt =====
-- core/pkg/broadcast/main.go: named channels with a buffer, to which anyone may send and from which
-- receivers read. A channel is a queue of bounded length that may be closed. The source's map holds
-- pointers; an entry that leaves the map is kept in `retired`, since its receivers, and a sender
-- that has loaded it, still hold it. Times are natural numbers.
pub mod Sound
pub mod Calls
pub mod Leaks
pub mod Tests
use skeyevss_backend_service.Prelude.{
  ℕ, zero, suc, ◌+◌, ◌-◌, Bool, true, false, ◌&&◌, Option, none, some, List, [], ◌∷◌, ◌++◌, map,
  if◌then◌else◌, ltb, leb, nat_beq, length, ℤ, pos, negsuc,
}
use skeyevss_backend_service.Text.{Text, text_comparable}
use skeyevss_backend_service.GoMap.{GoMap, RangeOrder, keys, lookup, insert, delete}
use skeyevss_backend_service.XMap.{Outcome, returned, panicked}

-- channelInfo. The usage is at least 0 wherever the source reads it; see `unregister_receiver`.
pub record Info (D : Type 0) : Type 0 where
  pub queue : List D
  pub capacity : ℕ
  pub is_closed : Bool
  pub created_at : ℕ
  pub last_used : ℕ
  pub usage : ℕ

-- BroadcastManager
pub record Manager (D : Type 0) : Type 0 where
  pub channels : GoMap Text (Info D)
  pub max_capacity : ℕ
  pub retired : List (Text × Info D)

-- The capacity that NewBroadcast settles on.
pub capacity_of : ℤ → ℕ
capacity_of (pos zero) = 100
capacity_of (pos (suc n)) = suc n
capacity_of (negsuc n) = 100

module _ {D : Type 0} where
  pub new_broadcast : ℤ → Manager D
  unfolding capacity_of
  new_broadcast max_capacity = record {
    channels = [];
    max_capacity = capacity_of max_capacity;
    retired = [];
  }

  -- `lastUsed = now; usage++`
  abbrev pub touch : ℕ → Info D → Info D
  touch now info = record info { last_used = now; usage = info.usage + 1 }

  -- The select on a send: a full channel drops the data, and a closed one panics.
  pub push : D → Info D → Outcome (Bool × Info D)
  push d info =
      if info.is_closed
      then panicked
      else if ltb (length info.queue) info.capacity
      then returned (true, record info { queue = info.queue ++ d ∷ [] })
      else returned (false, info)

  abbrev pub pushed : Text → Manager D → Outcome (Bool × Info D) → Outcome (Bool × Manager D)
  pushed name m panicked = panicked
  pushed name m (returned (ok, info)) =
      returned (ok, record m { channels = insert name info m.channels })

  -- Send
  pub send : ℕ → Text → D → Manager D → Outcome (Bool × Manager D)
  unfolding push lookup insert delete
  send now name d m = elim (lookup name m.channels) [
    | none ↦ returned (false, m)
    | some info ↦ pushed name m (push d (touch now info))
  ]

  abbrev pub fresh : ℕ → ℕ → Info D
  fresh now capacity = record {
    queue = [];
    capacity = capacity;
    is_closed = false;
    created_at = now;
    last_used = now;
    usage = 1;
  }

  -- RegisterReceiver
  pub register_receiver : ℕ → Text → Manager D → Manager D
  unfolding lookup insert delete
  register_receiver now name m = elim (lookup name m.channels) [
    | none ↦ record m { channels = insert name (fresh now m.max_capacity) m.channels }
    | some info ↦ record m { channels = insert name (touch now info) m.channels }
  ]

  -- The select before `close`: one element is taken out if there is one. To close a closed channel
  -- panics; an empty one that is closed already is left alone.
  pub close_channel : Info D → Outcome (Info D)
  close_channel info = elim info.queue [
    | [] ↦ returned (record info { is_closed = true })
    | d ∷ rest ↦
        if info.is_closed
        then panicked
        else returned (record info { queue = rest; is_closed = true })
  ]

  abbrev pub retired_as : Text → Manager D → Outcome (Info D) → Outcome (Manager D)
  retired_as name m panicked = panicked
  retired_as name m (returned info) =
      returned
        (record m { channels = delete name m.channels; retired = m.retired ++ (name, info) ∷ [] })

  -- UnregisterReceiver: the subtraction stops at 0, where the source goes on to -1, and both are
  -- `<= 0`.
  pub unregister_receiver : Text → Manager D → Outcome (Manager D)
  unfolding close_channel lookup insert delete
  unregister_receiver name m = elim (lookup name m.channels) [
    | none ↦ returned m
    | some info ↦
        if leb (info.usage - 1) 0
        then retired_as name m (close_channel (record info { usage = info.usage - 1 }))
        else returned (record m {
          channels = insert name (record info { usage = info.usage - 1 }) m.channels;
        })
  ]

  -- UnregisterAllReceivers
  pub unregister_all_receivers : Text → Manager D → Outcome (Manager D)
  unfolding close_channel lookup delete
  unregister_all_receivers name m = elim (lookup name m.channels) [
    | none ↦ returned m
    | some info ↦ retired_as name m (close_channel (record info { usage = 0 }))
  ]

  -- cleanupChannel, run to its end: the channel is emptied, and the elements are counted.
  pub cleanup_channel : List D → ℕ → ℕ
  cleanup_channel [] dropped = dropped
  cleanup_channel (d ∷ rest) dropped = cleanup_channel rest (dropped + 1)

  -- `idleTime > maxIdle && usage == 0`
  abbrev pub is_idle : ℕ → ℕ → Info D → Bool
  is_idle now max_idle info = ltb max_idle (now - info.last_used) && nat_beq info.usage 0

  abbrev pub and_then :
      (Manager D → Outcome (Manager D)) → Outcome (Manager D) → Outcome (Manager D)
  and_then f panicked = panicked
  and_then f (returned m) = f m

  -- The body of the loop of the cleanup worker, for one name.
  pub cleanup_one : ℕ → ℕ → Text → Manager D → Outcome (Manager D)
  unfolding unregister_all_receivers lookup
  cleanup_one now max_idle name m = elim (lookup name m.channels) [
    | none ↦ returned m
    | some info ↦ if is_idle now max_idle info then unregister_all_receivers name m else returned m
  ]

  pub cleanup_loop : ℕ → ℕ → List Text → Manager D → Outcome (Manager D)
  unfolding cleanup_one
  cleanup_loop now max_idle [] m = returned m
  cleanup_loop now max_idle (name ∷ rest) m =
      and_then (cleanup_loop now max_idle rest) (cleanup_one now max_idle name m)

  -- One tick of StartCleanupWorker.
  pub cleanup_tick : RangeOrder Text → ℕ → ℕ → Manager D → Outcome (Manager D)
  unfolding cleanup_loop
  cleanup_tick order now max_idle m = cleanup_loop now max_idle (order.arrange (keys m.channels)) m

  pub close_loop : List Text → Manager D → Outcome (Manager D)
  unfolding unregister_all_receivers
  close_loop [] m = returned m
  close_loop (name ∷ rest) m = and_then (close_loop rest) (unregister_all_receivers name m)

  -- Close
  pub close : RangeOrder Text → Manager D → Outcome (Manager D)
  unfolding close_loop
  close order m = close_loop (order.arrange (keys m.channels)) m

  abbrev pub noted :
      Text
      → GoMap Text Bool
      → (GoMap Text Bool → Manager D → Outcome (GoMap Text Bool × Manager D))
      → Outcome (Bool × Manager D)
      → Outcome (GoMap Text Bool × Manager D)
  noted name result f panicked = panicked
  noted name result f (returned (ok, m)) = f (insert name ok result) m

  pub broadcast_loop :
      ℕ → D → List Text → GoMap Text Bool → Manager D → Outcome (GoMap Text Bool × Manager D)
  unfolding send
  broadcast_loop now d [] result m = returned (result, m)
  broadcast_loop now d (name ∷ rest) result m =
      noted name result (broadcast_loop now d rest) (send now name d m)

  -- Broadcast
  pub broadcast : RangeOrder Text → ℕ → D → Manager D → Outcome (GoMap Text Bool × Manager D)
  unfolding broadcast_loop
  broadcast order now d m = broadcast_loop now d (order.arrange (keys m.channels)) [] m

  -- GetChannelStats: usage, length of the queue, creation and last use.
  pub get_channel_stats : Text → Manager D → Option (ℕ × ℕ × ℕ × ℕ)
  unfolding lookup
  get_channel_stats name m = elim (lookup name m.channels) [
    | none ↦ none
    | some info ↦ some (info.usage, length info.queue, info.created_at, info.last_used)
  ]

  -- GetAllChannels
  pub get_all_channels : RangeOrder Text → Manager D → List Text
  get_all_channels order m = order.arrange (keys m.channels)

  -- GetChannelCount
  pub get_channel_count : RangeOrder Text → Manager D → ℕ
  get_channel_count order m = length (order.arrange (keys m.channels))
