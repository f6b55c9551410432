-- ===== src/Workspaces/Step/Announcement.antt =====
-- What `updateTask` emits and publishes behind its transaction.
use saa_s_app_be.Prelude.{
  ◌+◌, String, ◌==◌, ◌≡◌, ap, ◌∙◌, inl, inr, not, ◌&&◌, arith, Option-cases, if◌then◌else◌,
}
use saa_s_app_be.Auth.Model.{RequestUser}
use saa_s_app_be.Action.{Result, ok}
use saa_s_app_be.Files.Cloud.{FileHost}
use saa_s_app_be.Workspaces.Model.{UpdateTaskDto, Board, is_done}
use saa_s_app_be.Workspaces.Service.{publish_member_my_tasks_inbox_refresh}
use saa_s_app_be.Workspaces.Update.{
  UpdateTransactionResult, emit_updated, publish_updated, announce_updated,
}
use saa_s_app_be.Workspaces.Step.{completions}

module _ (fh : FileHost) where
  -- Publishing writes neither tasks nor events, and never fails.
  published :
      (user : RequestUser) (workspace_id : String) (r : UpdateTransactionResult) (s : Board fh)
      → ((publish_updated fh user workspace_id r s).0 ≡ ok tt)
        × ((publish_updated fh user workspace_id r s).1.tasks ≡ s.tasks)
        × ((publish_updated fh user workspace_id r s).1.events ≡ s.events)
  unfolding publish_updated publish_member_my_tasks_inbox_refresh
  published user workspace_id r s = elim (Option-cases r.updated.assigned_to) [
    | inl nobody ↦ (ground arith, ground arith, ground arith)
    | inr (b, somebody) ↦ (ground arith, ground arith, ground arith)
  ]

  module _ (user : RequestUser) (workspace_id : String) (body : UpdateTaskDto)
      (r : UpdateTransactionResult) (s : Board fh) where
    abbrev emitted : Result Unit × Board fh
    emitted = emit_updated fh user workspace_id body r s

    emitted_quiet : (emitted.0 ≡ ok tt) × (emitted.1.tasks ≡ s.tasks)
    unfolding emit_updated
    emitted_quiet = (ground arith, ground arith)

    emitted_completions :
        (j : String)
        → completions j emitted.1.events
          ≡ (if (r.updated.id == j) && (not (is_done r.previous_status) && is_done r.updated.status)
              then 1
              else 0)
            + completions j s.events
    unfolding emit_updated
    emitted_completions j = ground arith

    pub announced_ok : (announce_updated fh user workspace_id body r s).0 ≡ ok tt
    unfolding announce_updated
    announced_ok =
        let (ok_emit, _) = emitted_quiet in
        let (ok_publish, _, _) = published user workspace_id r emitted.1 in ground arith

    pub announced_tasks : (announce_updated fh user workspace_id body r s).1.tasks ≡ s.tasks
    unfolding announce_updated
    announced_tasks =
        let (ok_emit, same) = emitted_quiet in
        let (_, tasks, _) = published user workspace_id r emitted.1 in ground arith

    pub announced_completions :
        (j : String)
        → completions j (announce_updated fh user workspace_id body r s).1.events
          ≡ (if (r.updated.id == j) && (not (is_done r.previous_status) && is_done r.updated.status)
              then 1
              else 0)
            + completions j s.events
    unfolding announce_updated
    announced_completions j =
        let (ok_emit, same) = emitted_quiet in
        let (_, _, events) = published user workspace_id r emitted.1 in
        let last : (announce_updated fh user workspace_id body r s).1.events ≡ emitted.1.events =
          ground arith in
        ap (completions j) last ∙ emitted_completions j
