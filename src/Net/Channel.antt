-- ===== src/Net/Channel.antt =====
-- A descriptor's channel and its place in the epoll set: include/reactor/net/Channel.h,
-- src/net/Channel.cpp, and `UpdateChannel` and `RemoveChannel` of src/net/EventLoop.cpp. The
-- kernel's interest in the descriptor is its event mask, if it is in the set.
pub mod Interest
mod Examples
use mini_reactor.Base.{
  if◌then◌else◌, Bool, true, false, not, ◌&&◌, ◌||◌, List, [], ◌∷◌, ◌++◌, Option, none, some,
}

-- The three bits of `events_` that the code sets: EPOLLIN, EPOLLOUT and EPOLLET.
pub record Events : Type 0 where
  pub reading : Bool
  pub writing : Bool
  pub edge : Bool

abbrev pub no_events : Events
no_events = record { reading = false; writing = false; edge = false }

unfoldable pub is_none_event : Events → Bool
is_none_event e = not (e.reading || e.writing || e.edge)

-- `index_`: -1, 1 or 2.
pub data Index : Type 0 where
  fresh added cleared : Index

pub record Channel : Type 0 where
  pub events : Events
  pub index : Index

abbrev pub init : Channel
init = record { events = no_events; index = fresh }

-- `revents_`, and which callbacks are set.
pub record Revents : Type 0 where
  pub in_set : Bool
  pub out_set : Bool
  pub pri_set : Bool
  pub err_set : Bool
  pub hup_set : Bool
  pub rdhup_set : Bool

pub data Callback : Type 0 where
  on_close on_error on_read on_write : Callback

abbrev when : Bool → Callback → List Callback
when true c = c ∷ []
when false c = []

-- The callbacks that `HandleEvent` calls, in order, where all are set.
unfoldable pub handle_event : Revents → List Callback
handle_event r =
    when (r.hup_set && not r.in_set) on_close
    ++ when r.err_set on_error
    ++ when (r.in_set || r.pri_set || r.rdhup_set) on_read
    ++ when r.out_set on_write

pub data Ctl : Type 0 where
  ctl_add ctl_mod ctl_del : Ctl

abbrev pub Interest : Type 0
Interest = Option Events

pub data Op : Type 0 where
  enable_reading disable_reading enable_writing disable_writing disable_all remove : Op

unfoldable pub set_events : Op → Events → Events
set_events enable_reading e = record e { reading = true; edge = true }
set_events disable_reading e = record e { reading = false }
set_events enable_writing e = record e { writing = true }
set_events disable_writing e = record e { writing = false }
set_events disable_all e = no_events
set_events remove e = e

-- `epoll_ctl`: whether it returns 0, and the interest after it.
abbrev pub EpollCtl : Type 0
EpollCtl = Ctl → Events → Interest → Bool × Interest

module _ (epoll_ctl : EpollCtl) where
  abbrev add_to_tree : Channel → Interest → Channel × Interest
  add_to_tree ch k =
      let (ok, k') = epoll_ctl ctl_add ch.events k in
      (if ok then record ch { index = added } else ch, k')

  abbrev update_at : Index → Channel → Interest → Channel × Interest
  update_at fresh ch k = add_to_tree ch k
  update_at cleared ch k = add_to_tree ch k
  update_at added ch k =
      let (ok, k') = epoll_ctl ctl_mod ch.events k in
      (if is_none_event ch.events && ok then record ch { index = cleared } else ch, k')

  unfoldable pub update_channel : Channel → Interest → Channel × Interest
  unfolding is_none_event
  update_channel ch k = update_at ch.index ch k

  abbrev del_at : Index → Channel → Interest → Interest
  del_at fresh ch k = k
  del_at _ ch k = (epoll_ctl ctl_del ch.events k).1

  unfoldable pub remove_channel : Channel → Interest → Channel × Interest
  remove_channel ch k = (record ch { index = fresh }, del_at ch.index ch k)

  unfoldable pub apply : Op → Channel → Interest → Channel × Interest
  unfolding update_channel remove_channel set_events
  apply remove ch k = remove_channel ch k
  apply op ch k = update_channel (record ch { events = set_events op ch.events }) k

  unfoldable pub apply_all : List Op → Channel → Interest → Channel × Interest
  unfolding apply
  apply_all [] ch k = (ch, k)
  apply_all (op ∷ ops) ch k = let (ch', k') = apply op ch k in apply_all ops ch' k'
