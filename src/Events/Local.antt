-- ===== src/Events/Local.antt =====
-- shared/events.ts, the in-process bus, which calls the handlers of an event itself.
use notebortt_backend.Common.Keys.{add, remove, has}
use notebortt_backend.Common.Assoc.{put, get}
use notebortt_backend.Collab.Board.{get_or, is_nil}
use notebortt_backend.Events.Consumer.{CallEnd, Fanout, resolves, rejects, throws}
use notebortt_backend.Events.{AppEvent, event_name}
use notebortt_backend.Common.{List, String, [], none, Bool, ◌∷◌, if◌then◌else◌, not, false}

pub record LocalBus : Type 0 where
  pub local_handlers : List (String × List String)
  pub warned_no_listeners : List String

abbrev pub local_handlers_of : AppEvent → LocalBus → List String
local_handlers_of event bus = get_or (get (event_name event) bus.local_handlers) []

-- Each handler is called within a promise, so one that throws makes a failure as well.
unfoldable pub settle_all : (String → CallEnd) → List String → Fanout
settle_all run [] = record { called = []; failures = []; thrown = none }
settle_all run (h ∷ hs) =
    let rest = settle_all run hs in
    elim (run h) [
      | resolves ↦ record rest { called = h ∷ rest.called }
      | rejects e ↦ record rest { called = h ∷ rest.called; failures = e ∷ rest.failures }
      | throws e ↦ record rest { called = h ∷ rest.called; failures = e ∷ rest.failures }
    ]

-- The handlers called with their failures, which are logged, whether the warning is logged, and
-- the bus.
unfoldable pub emit_local : (String → CallEnd) → AppEvent → LocalBus → Fanout × Bool × LocalBus
unfolding settle_all
emit_local run event bus =
    let fanout = settle_all run (local_handlers_of event bus) in
    if is_nil (local_handlers_of event bus)
    then (
      fanout,
      not (has (event_name event) bus.warned_no_listeners),
      record bus { warned_no_listeners = add (event_name event) bus.warned_no_listeners },
    )
    else (fanout, false, bus)

unfoldable pub on_local : AppEvent → String → LocalBus → LocalBus
on_local event handler bus = record bus {
  local_handlers =
      put (event_name event) (add handler (local_handlers_of event bus)) bus.local_handlers;
}

unfoldable pub unsubscribe_local : AppEvent → String → LocalBus → LocalBus
unsubscribe_local event handler bus = record bus {
  local_handlers =
      put (event_name event) (remove handler (local_handlers_of event bus)) bus.local_handlers;
}

unfoldable pub close_local : LocalBus → LocalBus
close_local bus = record bus { warned_no_listeners = [] }
