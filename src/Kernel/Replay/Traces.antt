-- ===== src/Kernel/Replay/Traces.antt =====
-- Lists of events that an operation appends, and their replay by `Kernel._apply_replay_event`.
use shared_mind.Base.{
  ◌≡◌, refl, sym, ap, ◌∙◌, List, [], ◌∷◌, ◌++◌, append-nil, append_assoc, ok, fold_result,
  fold_result-append,
}
use shared_mind.Documents.{Registry, Event}
use shared_mind.Kernel.Host.{Host}
use shared_mind.Kernel.State.{Tables}
use shared_mind.Kernel.Replay.{apply_replay_event, apply_replay_events}

-- `events'` extends `events` by events that replay from one state to the other.
unfoldable pub ReplaysTo : Host → Registry → Tables → List Event → Tables → List Event → Type 0
ReplaysTo h reg t events t' events' =
    (new : List Event) × (events' ≡ events ++ new) × (apply_replay_events h reg new t ≡ ok t')

pub ReplaysTo-refl :
    (h : Host) (reg : Registry) (t : Tables) (events : List Event)
    → ReplaysTo h reg t events t events
unfolding ReplaysTo apply_replay_events fold_result
ReplaysTo-refl h reg t events = ([], sym (append-nil events), refl)

pub ReplaysTo-one :
    (h : Host) (reg : Registry) (t : Tables) (events : List Event) (e : Event) (t' : Tables)
    → apply_replay_event h reg e t ≡ ok t'
    → ReplaysTo h reg t events t' (events ++ e ∷ [])
unfolding ReplaysTo apply_replay_events fold_result
ReplaysTo-one h reg t events e t' p = (e ∷ [], refl, rw p)

pub ReplaysTo-trans :
    (h : Host) (reg : Registry) (t u v : Tables) (es fs gs : List Event)
    → ReplaysTo h reg t es u fs
    → ReplaysTo h reg u fs v gs
    → ReplaysTo h reg t es v gs
unfolding ReplaysTo apply_replay_events
ReplaysTo-trans h reg t u v es fs gs (a, p, q) (b, p', q') = (
  a ++ b,
  p' ∙ ap (λ (l : List Event). l ++ b) p ∙ append_assoc es a b,
  rw (fold_result-append (apply_replay_event h reg) a b t, q) q',
)
