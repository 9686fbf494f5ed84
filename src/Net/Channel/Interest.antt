-- ===== src/Net/Channel/Interest.antt =====
-- The channel's mask against the kernel's interest, over any sequence of calls.
use mini_reactor.Base.{
  ◌≡◌, refl, sym, ap, subst, not, ◌||◌, Bool, true, false, List, [], ◌∷◌, none, some, Bool-cases,
  inl, inr, All, ◌≢◌,
}
use mini_reactor.Net.Channel.{
  Events, no_events, is_none_event, Index, fresh, added, cleared, Channel, Op, enable_reading,
  disable_reading, enable_writing, disable_writing, disable_all, remove, ctl_add, ctl_mod, ctl_del,
  Interest, EpollCtl, update_channel, remove_channel, set_events, apply, apply_all,
}

-- What epoll_ctl(2) documents, where the kernel is not out of memory: adding a descriptor that is
-- in the set fails, and so does changing one that is not.
pub record IsEpoll (epoll_ctl : EpollCtl) : Type 0 where
  pub add_new : (e : Events) → epoll_ctl ctl_add e none ≡ (true, some e)
  pub add_old : (e old : Events) → epoll_ctl ctl_add e (some old) ≡ (false, some old)
  pub mod_old : (e old : Events) → epoll_ctl ctl_mod e (some old) ≡ (true, some e)
  pub del_old : (e old : Events) → epoll_ctl ctl_del e (some old) ≡ (true, none)

-- By the index: out of the set; in the set with the channel's mask; in the set with no events.
abbrev pub InStepAt : Index → Events → Interest → Type 0
InStepAt fresh e k = k ≡ none
InStepAt added e k = k ≡ some e
InStepAt cleared e k = k ≡ some no_events

abbrev pub InStep : Channel → Interest → Type 0
InStep ch k = InStepAt ch.index ch.events k

three_bits :
    (r w d : Bool)
    → not (r || w || d) ≡ true
    → ◌≡◌ {A = Events} (record { reading = r; writing = w; edge = d }) no_events
three_bits false false false h = refl
three_bits true w d h = absurd (cc)
three_bits false true d h = absurd (cc)
three_bits false false true h = absurd (cc)

is_none_event_lem : (e : Events) → is_none_event e ≡ true → e ≡ no_events
unfolding is_none_event
is_none_event_lem e h = three_bits e.reading e.writing e.edge h

-- The index and the interest of a channel that was disabled and not removed.
abbrev pub IsDeaf : Channel → Interest → Type 0
IsDeaf ch k = (ch.index ≡ cleared) × (k ≡ some no_events)

module _ (epoll_ctl : EpollCtl) (law : IsEpoll epoll_ctl) where
  update_channel-InStep :
      (index : Index) (e e' : Events) (k : Interest)
      → InStepAt index e k
      → InStep
          (update_channel epoll_ctl (record { events = e'; index = index }) k).0
          (update_channel epoll_ctl (record { events = e'; index = index }) k).1
  unfolding update_channel
  update_channel-InStep fresh e e' k h = rw (h, law.add_new e') refl
  update_channel-InStep cleared e e' k h = rw (h, law.add_old e' no_events) refl
  update_channel-InStep added e e' k h = elim (Bool-cases (is_none_event e')) [
    | inl empty ↦ rw (h, law.mod_old e' e, empty) (ap some (is_none_event_lem e' empty))
    | inr busy ↦ rw (h, law.mod_old e' e, busy) refl
  ]

  remove_channel-InStep :
      (index : Index) (e : Events) (k : Interest)
      → InStepAt index e k
      → (remove_channel epoll_ctl (record { events = e; index = index }) k).1 ≡ none
  unfolding remove_channel
  remove_channel-InStep fresh e k h = h
  remove_channel-InStep added e k h = rw h (ap (λ r. r.1) (law.del_old e e))
  remove_channel-InStep cleared e k h = rw h (ap (λ r. r.1) (law.del_old e no_events))

  apply-InStep :
      (op : Op) (ch : Channel) (k : Interest)
      → InStep ch k
      → InStep (apply epoll_ctl op ch k).0 (apply epoll_ctl op ch k).1
  unfolding apply
  apply-InStep enable_reading ch k h =
      update_channel-InStep ch.index ch.events (set_events enable_reading ch.events) k h
  apply-InStep disable_reading ch k h =
      update_channel-InStep ch.index ch.events (set_events disable_reading ch.events) k h
  apply-InStep enable_writing ch k h =
      update_channel-InStep ch.index ch.events (set_events enable_writing ch.events) k h
  apply-InStep disable_writing ch k h =
      update_channel-InStep ch.index ch.events (set_events disable_writing ch.events) k h
  apply-InStep disable_all ch k h =
      update_channel-InStep ch.index ch.events (set_events disable_all ch.events) k h
  apply-InStep remove ch k h = remove_channel-InStep ch.index ch.events k h

  -- Over any sequence of calls the index tells where the descriptor stands: at -1 it is not in
  -- the epoll set, at 1 it is there with exactly the channel's mask, and at 2 it is still there
  -- with an empty mask.
  pub apply_all-InStep :
      (ops : List Op) (ch : Channel) (k : Interest)
      → InStep ch k
      → InStep (apply_all epoll_ctl ops ch k).0 (apply_all epoll_ctl ops ch k).1
  unfolding apply_all
  apply_all-InStep [] ch k h = h
  apply_all-InStep (op ∷ ops) ch k h =
      apply_all-InStep ops (apply epoll_ctl op ch k).0 (apply epoll_ctl op ch k).1
        (apply-InStep op ch k h)

  stays-IsDeaf :
      (e e' : Events) (k : Interest)
      → k ≡ some no_events
      → IsDeaf
          (update_channel epoll_ctl (record { events = e'; index = cleared }) k).0
          (update_channel epoll_ctl (record { events = e'; index = cleared }) k).1
  unfolding update_channel
  stays-IsDeaf e e' k h = rw (h, law.add_old e' no_events) (refl, refl)

  apply-IsDeaf :
      (op : Op) (e : Events) (k : Interest)
      → op ≢ remove
      → k ≡ some no_events
      → IsDeaf
          (apply epoll_ctl op (record { events = e; index = cleared }) k).0
          (apply epoll_ctl op (record { events = e; index = cleared }) k).1
  unfolding apply
  apply-IsDeaf enable_reading e k ne h = stays-IsDeaf e _ k h
  apply-IsDeaf disable_reading e k ne h = stays-IsDeaf e _ k h
  apply-IsDeaf enable_writing e k ne h = stays-IsDeaf e _ k h
  apply-IsDeaf disable_writing e k ne h = stays-IsDeaf e _ k h
  apply-IsDeaf disable_all e k ne h = stays-IsDeaf e _ k h
  apply-IsDeaf remove e k ne h = absurd (ne refl)

  -- A channel at index 2, with its descriptor in the epoll set under an empty mask, stays so until
  -- it is removed, whatever it enables: adding the descriptor again fails and leaves the mask
  -- empty, so that the kernel is never asked for EPOLLIN or EPOLLOUT.
  pub apply_all-IsDeaf :
      (ops : List Op) (ch : Channel) (k : Interest)
      → All (λ op. op ≢ remove) ops
      → IsDeaf ch k
      → IsDeaf (apply_all epoll_ctl ops ch k).0 (apply_all epoll_ctl ops ch k).1
  unfolding apply_all
  apply_all-IsDeaf [] ch k ne h = h
  apply_all-IsDeaf (op ∷ ops) ch k ne h =
      let next =
        subst
          (λ i.
            IsDeaf (apply epoll_ctl op (record ch { index = i }) k).0
              (apply epoll_ctl op (record ch { index = i }) k).1)
          (sym h.0) (apply-IsDeaf op ch.events k ne.0 h.1) in
      apply_all-IsDeaf ops (apply epoll_ctl op ch k).0 (apply epoll_ctl op ch k).1 ne.1 next
