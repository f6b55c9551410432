-- ===== src/Workspaces/Listing.antt =====
-- workspace/workspace.service.ts and its repositories: the reads, with their pages.
pub mod Visibility
use saa_s_app_be.Prelude.{
  ℕ, zero, suc, ◌+◌, ◌-◌, ◌*◌, ◌/◌, String, ◌==◌, Bool, true, false, not, ◌&&◌, ◌||◌, Option, none,
  some, List, [], ◌∷◌, leb, ltb, eqb, length, is_some, is_filled, or_default, if◌then◌else◌,
}
use saa_s_app_be.Action.{Action, not_found, text, pure, gets, or_throw, throw_if, ◌>>=◌, ◌>>◌}
use saa_s_app_be.Mongo.Sort.{Sorting}
use saa_s_app_be.Auth.Model.{RequestUser}
use saa_s_app_be.Files.Cloud.{FileHost}
use saa_s_app_be.Workspaces.Model.{
  TaskStatus, Task, Workspace, ListTasksQueryDto, Board, same_status,
}
use saa_s_app_be.Workspaces.Repository.{find_active_by_id_and_workspace, is_workspace_of}
use saa_s_app_be.Workspaces.Service.{is_tenant_member, assert_workspace_belongs_to_tenant}
use saa_s_app_be.Workspaces.Update.{same_id}

-- `TaskStatusCounts`
pub record TaskStatusCounts : Type 0 where
  pub todo : ℕ
  pub in_progress : ℕ
  pub blocked : ℕ
  pub done : ℕ

pub record TaskPage : Type 0 where
  pub items : List Task
  pub page : ℕ
  pub limit : ℕ
  pub total : ℕ
  pub total_pages : ℕ
  pub status_counts : TaskStatusCounts

-- the parameters of the two filters; without `workspace_id` it is `buildUserFilter`
pub record TaskFilter : Type 0 where
  pub tenant_id : String
  pub workspace_id : Option String
  pub status : Option TaskStatus
  pub assigned_to : Option String
  pub search : Option String

-- `.skip(n)` and `.limit(n)`
unfoldable pub skip : {A : Type 0} → ℕ → List A → List A
skip n [] = []
skip zero (x ∷ xs) = x ∷ xs
skip (suc n) (x ∷ xs) = skip n xs

unfoldable pub limit_to : {A : Type 0} → ℕ → List A → List A
limit_to n [] = []
limit_to zero (x ∷ xs) = []
limit_to (suc n) (x ∷ xs) = x ∷ limit_to n xs

-- `Math.ceil(total / limit) || 1`
unfoldable pub total_pages_of : (total limit : ℕ) → ℕ
total_pages_of total limit =
    let pages = (total + limit - 1) / limit in if eqb pages 0 then 1 else pages

abbrev fits_status : Option TaskStatus → Task → Bool
fits_status none t = true
fits_status (some status) t = same_status t.status status

-- an empty text sets no condition
abbrev fits_text : Option String → Option String → Bool
fits_text wanted actual = not (is_filled wanted) || same_id actual wanted

abbrev fits_workspace : Option String → Task → Bool
fits_workspace none t = true
fits_workspace (some workspace_id) t = t.workspace_id == workspace_id

-- `text_score search task` is the score of the text index for the title and the description, and
-- `none` where the search does not match.
module _ (text_score : String → Task → Option ℕ) where
  abbrev fits_search : Option String → Task → Bool
  fits_search none t = true
  fits_search (some search) t = not (is_filled (some search)) || is_some (text_score search t)

  -- `buildFilter` and `buildUserFilter`
  unfoldable pub build_filter : TaskFilter → Task → Bool
  build_filter f t =
      (t.tenant_id == f.tenant_id)
      && (fits_workspace f.workspace_id t
          && (not (is_some t.deleted_at)
              && (fits_status f.status t
                  && (fits_text f.assigned_to t.assigned_to && fits_search f.search t))))

  -- `{ createdAt: -1 }`, behind the score when there is a search
  abbrev pub before : Option String → Task → Task → Bool
  before none a b = leb b.created_at a.created_at
  before (some search) a b =
      let p = or_default (text_score search a) 0 in
      let q = or_default (text_score search b) 0 in
      if is_filled (some search)
      then ltb q p || (eqb p q && leb b.created_at a.created_at)
      else leb b.created_at a.created_at

  module _ (fh : FileHost) where
    open fh use {host}
    open host use {mongo}
    open mongo use {find_many}

    -- all tasks of a filter in the order of one query
    unfoldable pub matching_tasks : Sorting Task → TaskFilter → Board fh → List Task
    unfolding build_filter
    matching_tasks order f s = order.arrange (before f.search) (find_many (build_filter f) s.tasks)

    abbrev count_status : TaskFilter → Board fh → TaskStatus → ℕ
    count_status f s status =
        length (find_many (λ t. build_filter f t && same_status t.status status) s.tasks)

    -- `countByStatusForWorkspace` and `countMyTasksByStatus`, which do not filter by status
    unfoldable pub count_by_status : TaskFilter → Board fh → TaskStatusCounts
    unfolding build_filter
    count_by_status f s =
        let g : TaskFilter = record f { status = none } in
        record {
          todo = count_status g s TaskStatus.todo;
          in_progress = count_status g s TaskStatus.in_progress;
          blocked = count_status g s TaskStatus.blocked;
          done = count_status g s TaskStatus.done;
        }

    -- `findManyPaginated` or `findMyTasksPaginated`, and the page around it; `page` and `limit` are at
    -- least 1 by `ListTasksQueryDto`
    unfoldable pub page_of : Sorting Task → TaskFilter → (page limit : ℕ) → Board fh → TaskPage
    unfolding matching_tasks skip limit_to
    page_of order f page limit s = record {
      items = limit_to limit (skip ((page - 1) * limit) (matching_tasks order f s));
      page = page;
      limit = limit;
      total = length (find_many (build_filter f) s.tasks);
      total_pages = total_pages_of (length (find_many (build_filter f) s.tasks)) limit;
      status_counts = count_by_status f s;
    }

    abbrev pub workspace_filter :
        RequestUser → (workspace_id : String) → ListTasksQueryDto → TaskFilter
    workspace_filter user workspace_id query = record {
      tenant_id = user.tenant_id;
      workspace_id = some workspace_id;
      status = query.status;
      assigned_to = if is_tenant_member user then some user.user_id else query.assigned_to;
      search = query.search;
    }

    unfoldable pub list_tasks :
        Sorting Task
        → RequestUser
        → (workspace_id : String) → ListTasksQueryDto
        → Action (Board fh) TaskPage
    unfolding page_of
    list_tasks order user workspace_id query = do
      assert_workspace_belongs_to_tenant fh workspace_id user.tenant_id
      gets (
          page_of order (workspace_filter user workspace_id query) (or_default query.page 1)
            (or_default query.limit 20))

    -- the user id of a session is never empty, so it always sets its condition
    abbrev user_filter : RequestUser → ListTasksQueryDto → TaskFilter
    user_filter user query = record {
      tenant_id = user.tenant_id;
      workspace_id = none;
      status = query.status;
      assigned_to = some user.user_id;
      search = query.search;
    }

    unfoldable pub list_my_tasks :
        Sorting Task → RequestUser → ListTasksQueryDto → Action (Board fh) TaskPage
    unfolding page_of
    list_my_tasks order user query = gets (
        page_of order (user_filter user query) (or_default query.page 1)
          (or_default query.limit 50))

module _ (fh : FileHost) where
  open fh use {host}
  open host use {mongo}

  unfoldable pub get_task_details :
      RequestUser → (workspace_id task_id : String) → Action (Board fh) Task
  get_task_details user workspace_id task_id = do
    assert_workspace_belongs_to_tenant fh workspace_id user.tenant_id
    found ← gets (find_active_by_id_and_workspace fh task_id workspace_id user.tenant_id)
    task ← or_throw found (not_found (text "Task not found"))
    throw_if (is_tenant_member user && not (same_id task.assigned_to (some user.user_id)))
        (not_found (text "Task not found"))
    pure task

  -- `findAllByTenant`
  unfoldable pub list_workspaces :
      Sorting Workspace → RequestUser → Action (Board fh) (List Workspace)
  list_workspaces order user = gets (λ s.
      order.arrange (λ a b. leb b.created_at a.created_at)
        (mongo.find_many (is_workspace_of user.tenant_id) s.workspaces))
