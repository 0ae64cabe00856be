-- ===== src/Events/Fanout.antt =====
-- Which handlers a fan-out calls, in the two transports.
use notebortt_backend.Events.Local.{settle_all}
use notebortt_backend.Events.Consumer.{
  CallEnd, fan_out, rejects, end_of, resolves, throws, completed,
}
use notebortt_backend.Common.{
  String, Bool, List, false, any, ◌≡◌, ◌∷◌, ◌≡◌, ◌++◌, true, [], ◌++◌, some, ◌↔◌, ◌↔◌, arith, none,
  refl,
}

abbrev pub does_throw : CallEnd → Bool
does_throw resolves = false
does_throw (rejects e) = false
does_throw (throws e) = true

-- The reasons of the handlers that fail, in order.
abbrev pub reasons : (String → CallEnd) → List String → List String
reasons run [] = []
reasons run (h ∷ hs) = elim (run h) [
  | resolves ↦ reasons run hs
  | rejects e ↦ e ∷ reasons run hs
  | throws e ↦ e ∷ reasons run hs
]

-- A handler of a queued event that throws before its first wait keeps the handlers that have
-- subscribed after it from being called, and the job fails by its error alone; the handlers before
-- it do not throw.
pub fan_out-throws :
    (run : String → CallEnd) (before : List String) (h e : String) (after : List String)
    → any (λ x. does_throw (run x)) before ≡ false
    → run h ≡ throws e
    → ((fan_out run (before ++ h ∷ after)).called ≡ before ++ h ∷ [])
      × ((fan_out run (before ++ h ∷ after)).thrown ≡ some e)
unfolding fan_out
fan_out-throws run [] h e after calm bad = ground (arith, bad)
fan_out-throws run (x ∷ before) h e after calm bad =
    ground (arith, fan_out-throws run before h e after)

settle_all_lem :
    (run : String → CallEnd) (hs : List String)
    → ((settle_all run hs).called ≡ hs)
      × ((settle_all run hs).failures ≡ reasons run hs)
      × ((settle_all run hs).thrown ≡ none)
unfolding settle_all
settle_all_lem run [] = (refl, refl, refl)
settle_all_lem run (h ∷ hs) = ground (arith, settle_all_lem run hs)

fan_out_calm :
    (run : String → CallEnd) (hs : List String)
    → any (λ x. does_throw (run x)) hs ≡ false
    → fan_out run hs ≡ settle_all run hs
unfolding fan_out settle_all
fan_out_calm run [] calm = refl
fan_out_calm run (h ∷ hs) calm = ground (arith, fan_out_calm run hs)

end_of-reasons : (fs : List String) → (end_of none fs ≡ completed) ↔ (fs ≡ [])
end_of-reasons [] = (λ _. refl, λ _. refl)
end_of-reasons (f ∷ fs) = (λ h. cc, λ h. cc)

-- Where no handler throws before its first wait, the consumer of the queues and the in-process bus
-- do the same: every handler of the event is called, whatever the others do, the reasons of all
-- that fail are collected in order, and the job completes if and only if none has failed.
pub fan_out-settle_all :
    (run : String → CallEnd) (hs : List String)
    → any (λ x. does_throw (run x)) hs ≡ false
    → (fan_out run hs ≡ settle_all run hs)
      × ((fan_out run hs).called ≡ hs)
      × ((fan_out run hs).failures ≡ reasons run hs)
      × ((end_of (fan_out run hs).thrown (fan_out run hs).failures ≡ completed)
          ↔ (reasons run hs ≡ []))
fan_out-settle_all run hs calm =
    let (called, failures, thrown) = settle_all_lem run hs in
    rw (fan_out_calm run hs calm)
      (refl, called, failures, rw (thrown, failures) (end_of-reasons (reasons run hs)))
