-- ===== src/Workspaces/Step/Revision.antt =====
-- The update of a task as a step on the board.
use saa_s_app_be.Prelude.{
  ℕ, ◌+◌, String, ◌==◌, ◌≡◌, refl, ap, ◌∙◌, inl, inr, Bool, true, not, ◌&&◌, Option, some, List, [],
  arith, eq_iff, or_default, Bool-cases, Option-cases, if◌then◌else◌,
}
use saa_s_app_be.Auth.Model.{RequestUser}
use saa_s_app_be.Action.{Exception, Result, ok, err, Result-cases}
use saa_s_app_be.Files.Cloud.{FileHost}
use saa_s_app_be.Files.Model.{FinalizedAssetItem}
use saa_s_app_be.Files.Finalize.{finalize_temporary_assets}
use saa_s_app_be.Files.Finalize.Items.{nothing_finalized}
use saa_s_app_be.Workspaces.Model.{Task, TaskStatus, UpdateTaskDto, Board, is_done}
use saa_s_app_be.Workspaces.Repository.{
  is_live_in, patched, commit, find_active_by_id_and_workspace, update_by_id_and_workspace,
  execute_in_transaction,
}
use saa_s_app_be.Workspaces.Service.{is_tenant_member, with_files, stored_task}
use saa_s_app_be.Workspaces.Update.{
  UpdateTransactionResult, update_patch, check_update, update_task_in_transaction, announce_updated,
  check_request, update_task,
}
use saa_s_app_be.Workspaces.Step.{Change, kept, revised, task_at, completions, IsOwnRevision}
use saa_s_app_be.Workspaces.Step.Checks.{
  update_checks, checked_state, checks_done, checks_own, checks_member,
}
use saa_s_app_be.Workspaces.Step.Announcement.{announced_ok, announced_tasks, announced_completions}
use saa_s_app_be.Workspaces.Step.Removal.{IsFound, find_active-IsFound}

module _ (fh : FileHost) where
  open fh use {host}
  open host use {mongo}

  module _ (now : ℕ) (uuid : String → String) (user : RequestUser) (workspace_id task_id : String)
      (body : UpdateTaskDto) (s : Board fh) where
    abbrev update : Result Task × Board fh
    update = update_task fh now uuid user workspace_id task_id body s

    abbrev inside : Result UpdateTransactionResult × Board fh
    inside = update_task_in_transaction fh now uuid user workspace_id task_id body s

    abbrev checked : Result Unit × Board fh
    checked = check_request fh user workspace_id body s

    abbrev announced : UpdateTransactionResult → Result Unit × Board fh
    announced r = announce_updated fh user workspace_id body r (commit fh inside.1)

    transaction_log : (inside.1.events ≡ s.events) × (inside.1.pushes ≡ s.pushes)
    unfolding update_task_in_transaction update_by_id_and_workspace
    transaction_log =
        elim (Option-cases
          (find_active_by_id_and_workspace fh task_id workspace_id user.tenant_id s)) [
            | inl missing ↦ (ground arith, ground arith)
            | inr (a, there) ↦
                let same = update_checks fh user workspace_id body s a in
                (ground arith, ground arith)
          ]

    -- An update that is refused leaves the documents of the board, its events and its pushes.
    pub update_task_refused :
        (e : Exception)
        → update.0 ≡ err e
        → (update.1.tasks ≡ s.tasks)
          × (update.1.workspaces ≡ s.workspaces)
          × (update.1.events ≡ s.events)
          × (update.1.pushes ≡ s.pushes)
    unfolding update_task execute_in_transaction
    update_task_refused e h =
        let same = checked_state fh user workspace_id body s in
        elim (Result-cases checked.0) [
          | inr (x, refused) ↦ (ground arith, ground arith, ground arith, ground arith)
          | inl (_, fine) ↦ elim (Result-cases inside.0) [
            | inr (x, failed) ↦
                let (events, pushes) = transaction_log in
                (ground arith, ground arith, ground arith, ground arith)
            | inl (r, made) ↦
                absurd
                  (ground (arith, announced_ok fh user workspace_id body r (commit fh inside.1)))
          ]
        ]

    update_task_done :
        (a : Task)
        → update.0 ≡ ok a
        → (r : UpdateTransactionResult) × (checked.0 ≡ ok tt)
          × (inside.0 ≡ ok r)
          × (update.1 ≡ (announced r).1)
    unfolding update_task execute_in_transaction
    update_task_done a h =
        let same = checked_state fh user workspace_id body s in
        elim (Result-cases checked.0) [
          | inr (x, refused) ↦ absurd (ground arith)
          | inl (_, fine) ↦ elim (Result-cases inside.0) [
            | inr (x, failed) ↦ absurd (ground arith)
            | inl (r, made) ↦
                let told = announced_ok fh user workspace_id body r (commit fh inside.1) in
                (r, ground arith, made, ground arith)
          ]
        ]

    abbrev found : Option Task
    found = find_active_by_id_and_workspace fh task_id workspace_id user.tenant_id s

    abbrev finalized : Result (List FinalizedAssetItem)
    finalized =
        (with_files fh
          (λ tasks. finalize_temporary_assets fh tasks now uuid (record {
            tenant_id = user.tenant_id;
            task_id = task_id;
            temporary_public_ids = or_default body.temp_attachment_public_ids [];
            scope = "workspace-tasks";
            in_session = true;
          }))
          s).0

    abbrev revise : Task → List FinalizedAssetItem → Task → Task
    revise a items = patched now (update_patch body a items)

    abbrev guard : Task → Bool
    guard = is_live_in workspace_id user.tenant_id

    -- What the transaction of an update leaves.
    record IsUpdated (r : UpdateTransactionResult) (a : Task) (items : List FinalizedAssetItem)
        : Type 0 where
      there : found ≡ some a
      passed : (check_update fh user body a s).0 ≡ ok tt
      attached : finalized ≡ ok items
      previous : r.previous_status ≡ a.status
      result : r.updated ≡ revise a items a
      tasks : inside.1.tasks ≡ (mongo.update_one task_id guard (revise a items) s.tasks).0

    transaction-IsUpdated :
        (r : UpdateTransactionResult)
        → inside.0 ≡ ok r
        → (a : Task) × (items : List FinalizedAssetItem) × IsUpdated r a items
    unfolding update_task_in_transaction update_by_id_and_workspace find_active_by_id_and_workspace
    transaction-IsUpdated r h = elim (Option-cases found) [
      | inl missing ↦ absurd (ground arith)
      | inr (a, there) ↦
          let same = update_checks fh user workspace_id body s a in
          elim (Result-cases (check_update fh user body a s).0) [
            | inr (e, refused) ↦ absurd (ground arith)
            | inl (_, passed) ↦ elim (Result-cases finalized) [
              | inr (e, failed) ↦ absurd (ground arith)
              | inl (items, fine) ↦ (
                a,
                items,
                record {
                  there = there;
                  passed = passed;
                  attached = fine;
                  previous = ground arith;
                  result = ground arith;
                  tasks = ground arith;
                },
              )
            ]
          ]
    ]

    own_revision :
        (r : UpdateTransactionResult) (a : Task) (items : List FinalizedAssetItem)
        → is_tenant_member user ≡ true
        → checked.0 ≡ ok tt
        → IsUpdated r a items
        → IsOwnRevision user.user_id a (revise a items a)
    own_revision r a items member fine u =
        let (no_assignee, no_urls, no_files) =
          checks_member fh user workspace_id body s member fine in
        let nothing : items ≡ [] =
          nothing_finalized fh now uuid
            (record {
              tenant_id = user.tenant_id;
              task_id = task_id;
              temporary_public_ids = or_default body.temp_attachment_public_ids [];
              scope = "workspace-tasks";
              in_session = true;
            })
            (stored_task fh s.tasks) s.files items no_files u.attached in
        record {
          own = checks_own fh user workspace_id body s a member u.passed;
          same_assignee = ground arith;
          same_attachments = ground arith;
        }

    revised_store :
        (a : Task) (items : List FinalizedAssetItem) (j : String)
        → IsFound fh task_id workspace_id user.tenant_id s a
        → mongo.find_one j (mongo.update_one task_id guard (revise a items) s.tasks).0
          ≡ (if task_id == j then some (revise a items a) else task_at fh j s)
    revised_store a items j f = ground (
      arith,
      mongo.find-update_one j task_id guard (revise a items) s.tasks,
      eq_iff task_id j,
      f.stored,
      f.live,
    )

    abbrev completion_of : Task → TaskStatus → String → ℕ
    completion_of b before j =
        if (b.id == j) && (not (is_done before) && is_done b.status) then 1 else 0

    revised_completions :
        (r : UpdateTransactionResult) (a : Task) (items : List FinalizedAssetItem) (j : String)
        → IsUpdated r a items
        → completions j (announced r).1.events
          ≡ completion_of (revise a items a) a.status j + completions j s.events
    revised_completions r a items j u =
        announced_completions fh user workspace_id body r (commit fh inside.1) j
        ∙ ap (λ es. completion_of r.updated r.previous_status j + completions j es)
            transaction_log.0
        ∙ ap (λ b. completion_of b r.previous_status j + completions j s.events) u.result
        ∙ ap (λ st. completion_of (revise a items a) st j + completions j s.events) u.previous

    pub update_task-Change : Change fh user s update.1
    update_task-Change = elim (Result-cases update.0) [
      | inr (e, refused) ↦
          let (tasks, _, events, _) = update_task_refused e refused in
          kept (λ j. ap (mongo.find_one j) tasks) events
      | inl (b, fine) ↦
          let (r, passed, made, last) = update_task_done b fine in
          let (a, items, u) = transaction-IsUpdated r made in
          let f = find_active-IsFound fh task_id workspace_id user.tenant_id s a u.there in
          let told = announced_tasks fh user workspace_id body r (commit fh inside.1) in
          revised task_id a (revise a items a) f.stored f.same_tenant f.undeleted
            (record {
              same_id = refl;
              same_tenant = refl;
              same_workspace = refl;
              same_author = refl;
              still_live = refl;
              done_stays = checks_done fh user workspace_id body s a u.passed;
            })
            (elim (Bool-cases (is_tenant_member user)) [
              | inl member ↦ inr (own_revision r a items member passed u)
              | inr admin ↦ inl admin
            ])
            (λ j.
              ap (λ t. task_at fh j t) last
              ∙ ap (mongo.find_one j) told
              ∙ ap (mongo.find_one j) u.tasks
              ∙ revised_store a items j f)
            (λ j. ap (λ t. completions j t.events) last ∙ revised_completions r a items j u)
    ]
