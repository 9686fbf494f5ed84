-- ===== src/Net/Channel/Examples.antt =====
-- A connection's channel, over an epoll set that follows the manual.
use mini_reactor.Base.{◌≡◌, refl, Bool, true, false, List, [], ◌∷◌, none, some}
use mini_reactor.Net.Channel.{
  Events, Channel, init, no_events, Op, enable_reading, enable_writing, disable_all, Ctl, ctl_add,
  ctl_mod, ctl_del, Interest, cleared, apply_all,
}
use mini_reactor.Net.Channel.Interest.{IsEpoll, InStep, IsDeaf, apply_all-InStep, apply_all-IsDeaf}

abbrev epoll : Ctl → Events → Interest → Bool × Interest
epoll ctl_add e none = (true, some e)
epoll ctl_add e (some old) = (false, some old)
epoll ctl_mod e none = (false, none)
epoll ctl_mod e (some old) = (true, some e)
epoll ctl_del e none = (false, none)
epoll ctl_del e (some old) = (true, none)

epoll-IsEpoll : IsEpoll epoll
epoll-IsEpoll = record {
  add_new = λ e. refl;
  add_old = λ e old. refl;
  mod_old = λ e old. refl;
  del_old = λ e old. refl;
}

abbrev calls : List Op
calls = enable_reading ∷ enable_writing ∷ disable_all ∷ []

apply_all-InStep_example :
    InStep (apply_all epoll calls init none).0 (apply_all epoll calls init none).1
apply_all-InStep_example = apply_all-InStep epoll epoll-IsEpoll calls init none refl

-- The channel that asks for input after `DisableAll` has it in its mask, and the kernel has not.
deaf :
    (apply_all epoll (enable_reading ∷ disable_all ∷ enable_reading ∷ []) init none).1
    ≡ some no_events
unfolding apply_all
deaf = refl

abbrev resting : Channel
resting = record { events = no_events; index = cleared }

apply_all-IsDeaf_example :
    IsDeaf
      (apply_all epoll (enable_reading ∷ []) resting (some no_events)).0
      (apply_all epoll (enable_reading ∷ []) resting (some no_events)).1
apply_all-IsDeaf_example =
    apply_all-IsDeaf epoll epoll-IsEpoll (enable_reading ∷ []) resting (some no_events)
      ((λ e. absurd (cc)), tt) (refl, refl)
