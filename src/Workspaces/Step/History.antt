-- ===== src/Workspaces/Step/History.antt =====
-- What holds over any sequence of requests.
use saa_s_app_be.Prelude.{
  ℕ, ◌≤◌, String, ◌==◌, ◌≡◌, ap, ◌∙◌, Bool, true, false, Option, none, some, arith, eq_iff,
  if◌then◌else◌,
}
use saa_s_app_be.Auth.Model.{RequestUser}
use saa_s_app_be.Files.Cloud.{FileHost}
use saa_s_app_be.Workspaces.Model.{Task, Board, is_done}
use saa_s_app_be.Workspaces.Step.{
  Request, actor, perform, Change, kept, added, revised, removed, swept, task_at, completions,
}
use saa_s_app_be.Workspaces.Step.Refinement.{perform-Change}

abbrev pub is_done_task : Option Task → Bool
is_done_task none = false
is_done_task (some a) = is_done a.status

abbrev pub done_count : Option Task → ℕ
done_count none = 0
done_count (some a) = if is_done a.status then 1 else 0

abbrev is_filed : String → Option Task → Bool
is_filed k none = true
is_filed k (some a) = a.id == k

module _ (fh : FileHost) where
  -- A sequence of requests, refused ones included.
  pub data Run (s : Board fh) : Board fh → Type 0 where
    start : Run s s
    next : {t : Board fh} → Run s t → (request : Request) → Run s (perform fh request t).1

  done_step :
      (user : RequestUser) (s t : Board fh) (k : String)
      → is_done_task (task_at fh k s) ≡ true
      → Change fh user s t
      → is_done_task (task_at fh k t) ≡ true
  done_step user s t k h (kept same _) = ap is_done_task (same k) ∙ h
  done_step user s t k h (added b _ _ _ fresh at _) = ground (arith, at k, fresh, eq_iff b.id k)
  done_step user s t k h (revised i a b found _ _ revision _ at _) =
      ground (arith, at k, found, eq_iff i k, revision.done_stays)
  done_step user s t k h (removed i now a _ found _ _ undone at _) =
      ground (arith, at k, found, eq_iff i k, undone)
  done_step user s t k h (swept workspace_id now _ at _) = ground (arith, at k)

  -- A task that is done stays stored and done, whatever requests follow.
  pub done_forever :
      (s t : Board fh) (k : String)
      → Run s t
      → is_done_task (task_at fh k s) ≡ true
      → is_done_task (task_at fh k t) ≡ true
  done_forever s _ k start h = h
  done_forever s _ k (next {t} run request) h =
      done_step (actor request) t (perform fh request t).1 k (done_forever s t k run h)
        (perform-Change fh request t)

  -- A task is stored under its identifier, and its completion was announced at most once, and only if
  -- it is done.
  pub record IsRecorded (s : Board fh) (k : String) : Type 0 where
    pub filed : is_filed k (task_at fh k s) ≡ true
    pub announced : completions k s.events ≤ done_count (task_at fh k s)

  module _ (user : RequestUser) (s t : Board fh) (recorded : (j : String) → IsRecorded s j)
      (k : String) where
    filed_step : Change fh user s t → is_filed k (task_at fh k t) ≡ true
    filed_step (kept same _) = ap (is_filed k) (same k) ∙ (recorded k).filed
    filed_step (added b _ _ _ fresh at _) = let old = (recorded k).filed in ground (arith, at k)
    filed_step (revised i a b found _ _ revision _ at _) =
        let old = (recorded k).filed in
        let this = (recorded i).filed in
        ground (arith, at k, found, revision.same_id, eq_iff i k, eq_iff a.id i, eq_iff b.id k)
    filed_step (removed i now a _ found _ _ undone at _) =
        let old = (recorded k).filed in
        let this = (recorded i).filed in
        ground (arith, at k, found, eq_iff i k, eq_iff a.id i, eq_iff a.id k)
    filed_step (swept workspace_id now _ at _) =
        let old = (recorded k).filed in ground (arith, at k)

    announced_step : Change fh user s t → completions k t.events ≤ done_count (task_at fh k t)
    announced_step (kept same events) =
        let old = (recorded k).announced in
        let events_same = ap (completions k) events in
        let task_same = same k in ground (arith, task_same, events_same)
    announced_step (added b _ _ _ fresh at events) =
        let old = (recorded k).announced in ground (arith, at k, events k, fresh, eq_iff b.id k)
    announced_step (revised i a b found _ _ revision _ at events) =
        let old = (recorded k).announced in
        let this = (recorded i).filed in
        ground (
          arith,
          at k,
          events k,
          found,
          revision.same_id,
          revision.done_stays,
          eq_iff i k,
          eq_iff a.id i,
          eq_iff b.id k,
        )
    announced_step (removed i now a _ found _ _ undone at events) =
        let old = (recorded k).announced in
        let same = ap (completions k) events in ground (arith, at k, found, undone, eq_iff i k)
    announced_step (swept workspace_id now _ at events) =
        let old = (recorded k).announced in
        let same = ap (completions k) events in ground (arith, at k)

  -- Over any sequence of requests the completion of a task is announced at most once, and only for a
  -- stored task that is done, on a board where this held before and every task was stored under its
  -- identifier.
  pub completion_once :
      (s t : Board fh) → Run s t → ((j : String) → IsRecorded s j) → (k : String) → IsRecorded t k
  completion_once s _ start recorded k = recorded k
  completion_once s _ (next {t} run request) recorded k =
      let before = completion_once s t run recorded in
      let change = perform-Change fh request t in
      record {
        filed = filed_step (actor request) t (perform fh request t).1 before k change;
        announced = announced_step (actor request) t (perform fh request t).1 before k change;
      }
