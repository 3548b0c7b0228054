-- ===== src/Core/Advance/Loop.antt =====
-- The loop over due events: which events it takes, and that its world is that of one batch.
use mathlib.Core.List.{append-nil, append_assoc}
use sandboxengine.Prelude.{
  ℕ, suc, ◌≡◌, refl, sym, ap, ◌∙◌, true, false, Option, none, some, List, [], ◌∷◌, ◌++◌, Bool-cases,
  inl, inr, ◌⊎◌, length,
}
use sandboxengine.Prelude.Results.{ok, Result-cases, ok-injective}
use sandboxengine.Contracts.World.{WorldState, WorldTerminal}
use sandboxengine.Contracts.Value.{Value}
use sandboxengine.Contracts.Event.{SchedulerEvent, EventPayload, marker, effects, terminal}
use sandboxengine.Core.Effects.{EffectBatchSuccess, is_valid_state, try_apply_effect_batch}
use sandboxengine.Core.Effects.Batch.{try_apply-is_valid_state, try_apply-frame}
use sandboxengine.Core.Effects.Compose.{after, try_apply-append, try_apply-empty}
use sandboxengine.Core.Advance.{LoopEnd, apply_event, apply_due, is_interruption}

-- The effects of an event, and of some events in order: `orderedEffects` of scheduler-replay.ts.
abbrev pub effects_of : EventPayload → List Value
effects_of (effects es) = es
effects_of _ = []

unfoldable pub ordered_effects : List SchedulerEvent → List Value
ordered_effects [] = []
ordered_effects (e ∷ es) = effects_of e.payload ++ ordered_effects es

-- The state with the terminal taken from another one.
abbrev pub with_terminal_of : WorldState → WorldState → WorldState
with_terminal_of s t = record t { terminal = s.terminal }

-- An event that does not end the scenario is the batch of its effects.
apply_event-batch :
    (s : WorldState) (p : EventPayload) (s' : WorldState)
    → is_valid_state s ≡ true
    → is_interruption p ≡ false
    → apply_event s p ≡ ok s'
    → (r : EffectBatchSuccess) × (try_apply_effect_batch s (effects_of p) ≡ ok r) × (r.state ≡ s')
unfolding apply_event
apply_event-batch s (marker m) s' v n h =
    let (r, done, same) = try_apply-empty s v in (r, done, same ∙ ok-injective h)
apply_event-batch s (effects es) s' v n h = elim (Result-cases (try_apply_effect_batch s es)) [
  | inr (f, e) ↦ let bad = rw (e, apply_event) at h in cc
  | inl (r, e) ↦ (r, e, ok-injective (rw (e, apply_event) at h))
]
apply_event-batch s (terminal a b) s' v n h = cc

apply_event-interrupts :
    (s : WorldState) (p : EventPayload) (s' : WorldState)
    → is_interruption p ≡ true
    → apply_event s p ≡ ok s'
    → (effects_of p ≡ []) × (t : WorldTerminal) × (s' ≡ record s { terminal = some t })
unfolding apply_event
apply_event-interrupts s (marker m) s' i h = cc
apply_event-interrupts s (effects es) s' i h = cc
apply_event-interrupts s (terminal a b) s' i h =
    (refl, record { reason = a; outcome = b }, sym (ok-injective h))

-- How the loop ended: by a terminal event, with the rest of the events left over, or by itself.
abbrev pub Ended : WorldState → LoopEnd → Option SchedulerEvent → Type 0
Ended s l none = (l.unprocessed ≡ []) × (l.state.terminal ≡ s.terminal)
Ended s l (some e) =
    (is_interruption e.payload ≡ true)
    × (t : WorldTerminal) × (l.state.terminal ≡ some t)
    × (before : List SchedulerEvent) × (l.applied ≡ before ++ e ∷ [])

-- The end of a loop that began at a state: the events that it took are the first of those given, and
-- the world is that of one batch of all their effects.
pub record IsLoopEnd (s : WorldState) (taken es : List SchedulerEvent) (l : LoopEnd) : Type 0 where
  pub accounted : taken ++ l.unprocessed ≡ es
  pub ended : Ended s l l.interruption
  pub batch : EffectBatchSuccess
  pub batch_done : try_apply_effect_batch s (ordered_effects taken) ≡ ok batch
  pub batch_state : batch.state ≡ with_terminal_of s l.state

-- One turn of the loop.
module _ (i : ℕ) (s : WorldState) (applied : List SchedulerEvent) (e : SchedulerEvent)
    (es : List SchedulerEvent) (l : LoopEnd) (h : apply_due i s applied (e ∷ es) ≡ ok l) where
  apply_due-step :
      (s' : WorldState) × (apply_event s e.payload ≡ ok s')
      × ((is_interruption e.payload ≡ true)
            × (l ≡ record {
              state = s';
              applied = applied ++ e ∷ [];
              interruption = some e;
              unprocessed = es;
            })
          ⊎ (is_interruption e.payload ≡ false)
            × (apply_due (suc i) s' (applied ++ e ∷ []) es ≡ ok l))
  unfolding apply_due
  apply_due-step = elim (Result-cases (apply_event s e.payload)) [
    | inr (f, x) ↦ let bad = rw (x, apply_due) at h in cc
    | inl (s', x) ↦ elim (Bool-cases (is_interruption e.payload)) [
      | inl t ↦ (s', x, inl (t, sym (ok-injective (rw (x, t, apply_due) at h))))
      | inr t ↦ (s', x, inr (t, rw (x, t, apply_due) at h))
    ]
  ]

-- The trivial end: no events were given.
IsLoopEnd-nil :
    (s : WorldState) (applied : List SchedulerEvent)
    → is_valid_state s ≡ true
    → IsLoopEnd s [] []
        (record { state = s; applied = applied; interruption = none; unprocessed = [] })
unfolding ordered_effects
IsLoopEnd-nil s applied v =
    let (r, done, same) = try_apply-empty s v in
    record {
      accounted = refl;
      ended = (refl, refl);
      batch = r;
      batch_done = done;
      batch_state = same;
    }

-- An event taken before the loop goes on.
IsLoopEnd-cons :
    (s s' : WorldState) (e : SchedulerEvent) (taken es : List SchedulerEvent) (l : LoopEnd)
    → is_valid_state s ≡ true
    → is_interruption e.payload ≡ false
    → apply_event s e.payload ≡ ok s'
    → s'.terminal ≡ s.terminal
    → IsLoopEnd s' taken es l
    → IsLoopEnd s (e ∷ taken) (e ∷ es) l
unfolding ordered_effects
IsLoopEnd-cons s s' e taken es l v n h kept k =
    let (r, done, same) = apply_event-batch s e.payload s' v n h in
    let rest : try_apply_effect_batch r.state (ordered_effects taken) ≡ ok k.batch =
      rw same k.batch_done in
    record {
      accounted = ap (◌∷◌ e) k.accounted;
      ended = rw (← kept) k.ended;
      batch = record (k.batch) { applied_effects = r.applied_effects ++ k.batch.applied_effects };
      batch_done =
          try_apply-append s (effects_of e.payload) (ordered_effects taken) r done
          ∙ ap (after r.applied_effects (length (effects_of e.payload))) rest;
      batch_state = k.batch_state ∙ ap (λ t. record l.state { terminal = t }) kept;
    }

-- The event that ends the scenario.
IsLoopEnd-interrupt :
    (s s' : WorldState) (e : SchedulerEvent) (es applied : List SchedulerEvent)
    → is_valid_state s ≡ true
    → is_interruption e.payload ≡ true
    → apply_event s e.payload ≡ ok s'
    → IsLoopEnd s (e ∷ []) (e ∷ es) (record {
      state = s';
      applied = applied ++ e ∷ [];
      interruption = some e;
      unprocessed = es;
    })
unfolding ordered_effects
IsLoopEnd-interrupt s s' e es applied v i h =
    let (r, done, same) = try_apply-empty s v in
    let (no_effects, t, set) = apply_event-interrupts s e.payload s' i h in
    let nothing : effects_of e.payload ++ [] ≡ [] =
      append-nil (effects_of e.payload) ∙ no_effects in
    record {
      accounted = refl;
      ended = (i, t, ap (λ s. s.terminal) set, applied, refl);
      batch = r;
      batch_done = rw nothing done;
      batch_state = same ∙ ap (with_terminal_of s) (sym set);
    }

apply_event-keeps :
    (s : WorldState) (p : EventPayload) (s' : WorldState)
    → is_valid_state s ≡ true
    → is_interruption p ≡ false
    → apply_event s p ≡ ok s'
    → (is_valid_state s' ≡ true) × (s'.terminal ≡ s.terminal)
apply_event-keeps s p s' v n h =
    let (r, done, same) = apply_event-batch s p s' v n h in
    let (_, _, _, _, kept, _, _, _) = try_apply-frame s (effects_of p) r done in
    (
      rw (sym same) (try_apply-is_valid_state s (effects_of p) r done),
      sym (ap (λ s. s.terminal) same) ∙ kept,
    )

-- The loop takes some first events of those given, and its end is as described.
pub apply_due-IsLoopEnd :
    (es : List SchedulerEvent) (i : ℕ) (s : WorldState) (applied : List SchedulerEvent)
    (l : LoopEnd)
    → is_valid_state s ≡ true
    → apply_due i s applied es ≡ ok l
    → (taken : List SchedulerEvent) × (l.applied ≡ applied ++ taken) × IsLoopEnd s taken es l
unfolding apply_due
apply_due-IsLoopEnd [] i s applied l v h =
    let same = ok-injective h in
    ([], rw (← same) (sym (append-nil applied)), rw (← same) (IsLoopEnd-nil s applied v))
apply_due-IsLoopEnd (e ∷ es) i s applied l v h =
    let (s', done, way) = apply_due-step i s applied e es l h in
    elim way [
      | inl (t, same) ↦ (
        e ∷ [],
        ap (λ l. l.applied) same,
        rw same (IsLoopEnd-interrupt s s' e es applied v t done),
      )
      | inr (n, rest) ↦
          let (valid, kept) = apply_event-keeps s e.payload s' v n done in
          let (taken, grown, end) =
            apply_due-IsLoopEnd es (suc i) s' (applied ++ e ∷ []) l valid rest in
          (
            e ∷ taken,
            grown ∙ append_assoc applied (e ∷ []) taken,
            IsLoopEnd-cons s s' e taken es l v n done kept end,
          )
    ]
