-- ===== src/Notification/Consumer.antt =====
-- services/notification-service/app/consumer.py: `_collect_targets`, the event handlers and
-- `_process_message`. The JSON of a message is read and written by the json package: its parse,
-- `data.get` on a key whose value is a string or null, and `json.dumps` are parameters.
pub mod Recipients
use microservices_project.Prelude.{
  ℕ, zero, suc, ◌+◌, ◌-◌, ◌*◌, ◌≤◌, ◌<◌, ◌≡◌, refl, sym, ap, ◌∙◌, ◌≢◌, ◌↔◌, ◌⊎◌, inl, inr, Bool,
  true, false, not, ◌&&◌, ◌||◌, Option, none, some, List, [], ◌∷◌, ◌++◌, map, arith, ltb, leb, ◌==◌,
  if◌then◌else◌, Bool-cases, Option-cases, length, All, elem, get_elem?, take, filter, tests, Eq,
  nat_eq, Result, ok, err, ◌>>=◌, ◌>>◌, require, ok_or,
}
use microservices_project.Prelude.Text.{Text, codes, text_eq}
use microservices_project.Notification.Broadcaster.{Broadcaster, broadcast}

-- The loop of `_collect_targets`; its result is what it adds to the seen ids, in order.
unfoldable pub collect_loop : List Text → List (Option Text) → List Text
collect_loop seen [] = []
collect_loop seen (none ∷ ids) = collect_loop seen ids
collect_loop seen (some [] ∷ ids) = collect_loop seen ids
collect_loop seen (some (c ∷ cs) ∷ ids) =
    if elem (c ∷ cs) seen
    then collect_loop seen ids
    else (c ∷ cs) ∷ collect_loop ((c ∷ cs) ∷ seen) ids

unfoldable pub collect_targets : List (Option Text) → List Text
unfolding collect_loop
collect_targets ids = collect_loop [] ids

-- What the notifier is sent.
pub record Note : Type 0 where
  pub recipient_id : Text
  pub subject : Text
  pub body : Text

-- `replace("\n", " ").replace("\r", " ")`, one character at a time.
abbrev pub blank_newline : ℕ → ℕ
blank_newline c = if c == 10 then 32 else if c == 13 then 32 else c

unfoldable pub safe_title : Text → Text
safe_title raw_title = take 200 (map blank_newline raw_title)

abbrev pub assigned_subject : Text
assigned_subject = codes "You have been assigned a new task"

abbrev pub task_created : Text
task_created = codes "task.created"

abbrev pub task_status_changed : Text
task_status_changed = codes "task.status_changed"

abbrev pub task_deleted : Text
task_deleted = codes "task.deleted"

-- How a message was settled with the service bus.
pub data Settled : Type 0 where
  completed : Settled
  abandoned : Settled

-- What processing a message did, beside the broadcast: the notes, the settlement, and the event
-- type that the metric is counted under.
pub record Processed : Type 0 where
  pub notes : List Note
  pub settled : Settled
  pub label : Text

module _ {D : Type 0} (get : Text → D → Option Text) (dumps : Text → D → Text) where
  -- A parsed message.
  pub record Body : Type 0 where
    pub event_type : Option Text
    pub event_data : D

  abbrev pub assignee_id : D → Option Text
  assignee_id d = get (codes "assignee_id") d

  abbrev pub creator_id : D → Option Text
  creator_id d = get (codes "creator_id") d

  unfoldable pub assigned_note : D → Text → Note
  assigned_note d assignee = record {
    recipient_id = assignee;
    subject = assigned_subject;
    body =
        codes "Task '"
        ++ safe_title (elim (get (codes "title") d) [ none ↦ [] | some title ↦ title ])
        ++ codes "' has been assigned to you.";
  }

  unfoldable pub on_task_created : D → List Note × List Text
  on_task_created d =
      let notes : List Note = elim (assignee_id d) [
        | none ↦ []
        | some [] ↦ []
        | some (c ∷ cs) ↦ assigned_note d (c ∷ cs) ∷ []
      ] in
      (notes, collect_targets (assignee_id d ∷ creator_id d ∷ []))

  unfoldable pub on_task_status_changed : D → List Note × List Text
  on_task_status_changed d = ([], collect_targets (creator_id d ∷ assignee_id d ∷ []))

  unfoldable pub on_task_deleted : D → List Note × List Text
  on_task_deleted d = ([], collect_targets (creator_id d ∷ assignee_id d ∷ []))

  -- `self._handlers.get(event_type)`, and no targets where there is no handler.
  unfoldable pub handle : Text → D → List Note × List Text
  handle event_type d =
      if event_type == task_created
      then on_task_created d
      else if event_type == task_status_changed
      then on_task_status_changed d
      else if event_type == task_deleted
      then on_task_deleted d
      else ([], [])

  -- `body.get("event_type", "unknown")`.
  abbrev pub type_of : Body → Text
  type_of m = elim m.event_type [ none ↦ codes "unknown" | some t ↦ t ]

  -- `_process_message`: a body that does not parse raises, and so may `complete_message`; both
  -- lead to `abandon_message`.
  unfoldable pub process_message : Option Body → Bool → Broadcaster → Broadcaster × Processed
  process_message none completes b =
      (b, record { notes = []; settled = abandoned; label = codes "unknown" })
  process_message (some m) completes b =
      let (notes, targets) = handle (type_of m) m.event_data in
      if completes
      then (
        broadcast (dumps (type_of m) m.event_data) targets b,
        record { notes = notes; settled = completed; label = type_of m },
      )
      else (b, record { notes = notes; settled = abandoned; label = type_of m })
