-- ===== src/Workspaces/Step/Creation.antt =====
-- The creation of a task as a step on the board.
use saa_s_app_be.Prelude.{
  ℕ, ◌+◌, String, ◌==◌, ◌≡◌, refl, sym, ap, ◌∙◌, inl, inr, Bool, true, false, ◌&&◌, none, some,
  List, [], arith, eq_iff, eq_refl, or_default, Bool-cases, if◌then◌else◌,
}
use saa_s_app_be.Auth.Model.{RequestUser}
use saa_s_app_be.Action.{Exception, Result, ok, err, Result-cases}
use saa_s_app_be.Files.Cloud.{FileHost}
use saa_s_app_be.Files.Model.{FinalizedAssetItem}
use saa_s_app_be.Files.Finalize.{finalize_temporary_assets}
use saa_s_app_be.Workspaces.Model.{Task, CreateTaskDto, Board, is_done}
use saa_s_app_be.Workspaces.Repository.{
  is_live_in, patched, commit, find_active_by_id_and_workspace, create_task_document,
  update_by_id_and_workspace, execute_in_transaction,
}
use saa_s_app_be.Workspaces.Service.{
  is_tenant_member, merge_attachment_urls, secure_urls, with_files,
  publish_member_my_tasks_inbox_refresh, assert_workspace_belongs_to_tenant,
  assert_assigned_user_in_tenant,
}
use saa_s_app_be.Workspaces.Tasks.{
  draft_task, same_texts, only_attachments, check_creation, create_task_in_transaction,
  announce_created, create_task,
}
use saa_s_app_be.Workspaces.Step.{Change, kept, added, task_at, completions}

module _ (fh : FileHost) where
  open fh use {host}
  open host use {mongo}

  -- What the transaction of a creation leaves.
  record IsDrafted (id tenant_id : String) (s t : Board fh) (a : Task) : Type 0 where
    fresh : task_at fh id s ≡ none
    stored : (j : String) → task_at fh j t ≡ (if id == j then some a else task_at fh j s)
    same_events : t.events ≡ s.events
    own_id : a.id ≡ id
    own_tenant : a.tenant_id ≡ tenant_id
    undeleted : a.deleted_at ≡ none

  module _ (now : ℕ) (id : String) (uuid : String → String) (user : RequestUser)
      (workspace_id : String) (body : CreateTaskDto) (s : Board fh) where
    abbrev draft : Task
    draft = draft_task now id user workspace_id body

    abbrev in_transaction : Result Task × Board fh
    in_transaction = create_task_in_transaction fh now id uuid user workspace_id body s

    abbrev guard : Task → Bool
    guard = is_live_in workspace_id user.tenant_id

    -- the board with the draft
    abbrev drafted : Board fh
    drafted = record s { tasks = (mongo.insert id draft s.tasks).0 }

    abbrev finalized : Result (List FinalizedAssetItem)
    finalized =
        (with_files fh
          (λ tasks. finalize_temporary_assets fh tasks now uuid (record {
            tenant_id = user.tenant_id;
            task_id = id;
            temporary_public_ids = or_default body.temp_attachment_public_ids [];
            scope = "workspace-tasks";
            in_session = true;
          }))
          drafted).0

    abbrev attachments : List FinalizedAssetItem → List String
    attachments items = merge_attachment_urls draft.attachment_urls (secure_urls items)

    transaction-IsDrafted :
        (a : Task) → in_transaction.0 ≡ ok a → IsDrafted id user.tenant_id s in_transaction.1 a
    unfolding create_task_in_transaction create_task_document update_by_id_and_workspace
        find_active_by_id_and_workspace
    transaction-IsDrafted a h =
        let fresh : task_at fh id s ≡ none = ground (arith, mongo.insert_done id draft s.tasks) in
        let there : mongo.find_one id drafted.tasks ≡ some draft =
          ground (arith, mongo.find-insert id id draft s.tasks, eq_refl id) in
        let live : guard draft ≡ true =
          ground (arith, eq_refl workspace_id, eq_refl user.tenant_id) in
        elim (Result-cases finalized) [
          | inr (e, failed) ↦ absurd (ground arith)
          | inl (items, fine) ↦
              elim (Bool-cases (same_texts (attachments items) draft.attachment_urls)) [
                | inl unchanged ↦
                    let same : a ≡ draft = ground arith in
                    let tasks : in_transaction.1.tasks ≡ drafted.tasks = ground arith in
                    record {
                      fresh = fresh;
                      stored = λ j.
                          ap (λ c. mongo.find_one j c) tasks
                          ∙ rw same
                              (ground (arith, mongo.find-insert j id draft s.tasks, eq_iff id j));
                      same_events = ground arith;
                      own_id = rw same refl;
                      own_tenant = rw same refl;
                      undeleted = rw same refl;
                    }
                | inr changed ↦
                    let change = patched now (only_attachments (attachments items)) in
                    let same : a ≡ change draft = ground arith in
                    let tasks : in_transaction.1.tasks
                        ≡ (mongo.update_one id guard change drafted.tasks).0 =
                      ground arith in
                    record {
                      fresh = fresh;
                      stored = λ j.
                          ap (λ c. mongo.find_one j c) tasks
                          ∙ rw same (
                              ground (
                                arith,
                                mongo.find-insert j id draft s.tasks,
                                mongo.find-update_one j id guard change drafted.tasks,
                                eq_iff id j,
                              ));
                      same_events = ground arith;
                      own_id = rw same refl;
                      own_tenant = rw same refl;
                      undeleted = rw same refl;
                    }
              ]
        ]

  announced_tasks :
      (user : RequestUser) (workspace_id : String) (a : Task) (s : Board fh)
      → (announce_created fh user workspace_id a s).1.tasks ≡ s.tasks
  unfolding announce_created publish_member_my_tasks_inbox_refresh
  announced_tasks user workspace_id a s = ground arith

  announced_completions :
      (user : RequestUser) (workspace_id : String) (a : Task) (s : Board fh) (j : String)
      → completions j (announce_created fh user workspace_id a s).1.events
        ≡ (if (a.id == j) && is_done a.status then 1 else 0) + completions j s.events
  unfolding announce_created publish_member_my_tasks_inbox_refresh
  announced_completions user workspace_id a s j = ground arith

  announced_ok :
      (user : RequestUser) (workspace_id : String) (a : Task) (s : Board fh)
      → (announce_created fh user workspace_id a s).0 ≡ ok tt
  unfolding announce_created publish_member_my_tasks_inbox_refresh
  announced_ok user workspace_id a s = ground arith

  module _ (now : ℕ) (id : String) (uuid : String → String) (user : RequestUser)
      (workspace_id : String) (body : CreateTaskDto) (s : Board fh) where
    abbrev created : Result Task × Board fh
    created = create_task fh now id uuid user workspace_id body s

    abbrev inside : Result Task × Board fh
    inside = in_transaction now id uuid user workspace_id body s

    abbrev checked : Result Unit × Board fh
    checked = check_creation fh user workspace_id body s

    abbrev announced : Task → Result Unit × Board fh
    announced a = announce_created fh user workspace_id a (commit fh inside.1)

    transaction_log : (inside.1.events ≡ s.events) × (inside.1.pushes ≡ s.pushes)
    unfolding create_task_in_transaction create_task_document update_by_id_and_workspace
    transaction_log = (ground arith, ground arith)

    -- The checks in front of the transaction write nothing.
    checked_state : checked.1 ≡ s
    unfolding check_creation assert_workspace_belongs_to_tenant assert_assigned_user_in_tenant
    checked_state = ground arith

    checked_admin : checked.0 ≡ ok tt → is_tenant_member user ≡ false
    unfolding check_creation
    checked_admin h = ground arith

    -- A creation that is refused leaves the documents of the board, its events and its pushes.
    pub create_task_refused :
        (e : Exception)
        → created.0 ≡ err e
        → (created.1.tasks ≡ s.tasks)
          × (created.1.workspaces ≡ s.workspaces)
          × (created.1.events ≡ s.events)
          × (created.1.pushes ≡ s.pushes)
    unfolding create_task execute_in_transaction
    create_task_refused e h =
        let same = checked_state in
        elim (Result-cases checked.0) [
          | inr (x, refused) ↦ (ground arith, ground arith, ground arith, ground arith)
          | inl (_, fine) ↦ elim (Result-cases inside.0) [
            | inr (x, failed) ↦
                let (events, pushes) = transaction_log in
                (ground arith, ground arith, ground arith, ground arith)
            | inl (a, made) ↦
                absurd (ground (arith, announced_ok user workspace_id a (commit fh inside.1)))
          ]
        ]

    create_task_done :
        (a : Task)
        → created.0 ≡ ok a
        → (checked.0 ≡ ok tt) × (inside.0 ≡ ok a) × (created.1 ≡ (announced a).1)
    unfolding create_task execute_in_transaction
    create_task_done a h =
        let same = checked_state in
        elim (Result-cases checked.0) [
          | inr (x, refused) ↦ absurd (ground arith)
          | inl (_, fine) ↦ elim (Result-cases inside.0) [
            | inr (x, failed) ↦ absurd (ground arith)
            | inl (b, made) ↦
                let told = announced_ok user workspace_id b (commit fh inside.1) in
                let is : b ≡ a = ground arith in
                (ground arith, rw is at made, rw (← is) (ground arith))
          ]
        ]

    pub create_task-Change : Change fh user s created.1
    create_task-Change = elim (Result-cases created.0) [
      | inr (e, refused) ↦
          let (tasks, _, events, _) = create_task_refused e refused in
          kept (λ j. ap (mongo.find_one j) tasks) events
      | inl (a, fine) ↦
          let (passed, made, last) = create_task_done a fine in
          let d = transaction-IsDrafted now id uuid user workspace_id body s a made in
          let told = announced_tasks user workspace_id a (commit fh inside.1) in
          added a (checked_admin passed) d.own_tenant d.undeleted (rw d.own_id d.fresh)
            (λ j.
              ap (λ t. task_at fh j t) last
              ∙ ap (mongo.find_one j) told
              ∙ d.stored j
              ∙ ap (λ i. if i == j then some a else task_at fh j s) (sym d.own_id))
            (λ j.
              ap (λ t. completions j t.events) last
              ∙ announced_completions user workspace_id a (commit fh inside.1) j
              ∙ ap (λ es. (if (a.id == j) && is_done a.status then 1 else 0) + completions j es)
                  d.same_events)
    ]
