-- ===== src/Workspaces/Listing/Visibility.antt =====
-- Which tasks the lists show.
use saa_s_app_be.Prelude.{
  ℕ, zero, suc, ◌-◌, ◌*◌, String, ◌≡◌, true, not, ◌&&◌, ◌||◌, Option, none, some, List, [], ◌∷◌,
  arith, or_default, is_filled, eq_iff,
}
use saa_s_app_be.Action.{ok}
use saa_s_app_be.Mongo.{All}
use saa_s_app_be.Mongo.Sort.{Sorting, arrange-All}
use saa_s_app_be.Auth.Model.{RequestUser}
use saa_s_app_be.Files.Cloud.{FileHost}
use saa_s_app_be.Workspaces.Model.{Task, Board, ListTasksQueryDto}
use saa_s_app_be.Workspaces.Service.{is_tenant_member, assert_workspace_belongs_to_tenant}
use saa_s_app_be.Workspaces.Update.{same_id}
use saa_s_app_be.Workspaces.Listing.{
  TaskFilter, TaskPage, skip, limit_to, build_filter, before, matching_tasks, page_of,
  workspace_filter, list_tasks,
}

module _ {A : Type 0} (P : A → Type 0) where
  skip-All : (n : ℕ) (xs : List A) → All P xs → All P (skip n xs)
  unfolding skip
  skip-All n [] h = tt
  skip-All zero (x ∷ xs) h = h
  skip-All (suc n) (x ∷ xs) h = skip-All n xs h.1

  limit_to-All : (n : ℕ) (xs : List A) → All P xs → All P (limit_to n xs)
  unfolding limit_to
  limit_to-All n [] h = tt
  limit_to-All zero (x ∷ xs) h = tt
  limit_to-All (suc n) (x ∷ xs) h = (h.0, limit_to-All n xs h.1)

  All-imp : (Q : A → Type 0) (xs : List A) → ((a : A) → P a → Q a) → All P xs → All Q xs
  All-imp Q [] h k = tt
  All-imp Q (x ∷ xs) h k = (h x k.0, All-imp Q xs h k.1)

-- A task that a user may see on the board of a workspace.
pub record IsVisible (user : RequestUser) (workspace_id : String) (t : Task) : Type 0 where
  pub same_tenant : t.tenant_id ≡ user.tenant_id
  pub same_workspace : t.workspace_id ≡ workspace_id
  pub live : t.deleted_at ≡ none
  pub own_of_member :
      (not (is_tenant_member user && is_filled (some user.user_id))
        || same_id t.assigned_to (some user.user_id))
      ≡ true

module _ (text_score : String → Task → Option ℕ) (fh : FileHost) (order : Sorting Task) where
  filter-IsVisible :
      (user : RequestUser) (workspace_id : String) (query : ListTasksQueryDto) (t : Task)
      → build_filter text_score (workspace_filter text_score fh user workspace_id query) t ≡ true
      → IsVisible user workspace_id t
  unfolding build_filter
  filter-IsVisible user workspace_id query t h = record {
    same_tenant = ground (arith, eq_iff t.tenant_id user.tenant_id);
    same_workspace = ground (arith, eq_iff t.workspace_id workspace_id);
    live = ground arith;
    own_of_member = ground arith;
  }

  page-All :
      (f : TaskFilter) (page limit : ℕ) (s : Board fh)
      → All
          (λ t. build_filter text_score f t ≡ true)
          (page_of text_score fh order f page limit s).items
  unfolding page_of matching_tasks
  page-All f page limit s =
      let found = fh.host.mongo.find_many (build_filter text_score f) s.tasks in
      let all = order.arrange (before text_score f.search) found in
      let P = λ (t : Task). build_filter text_score f t ≡ true in
      limit_to-All P limit (skip ((page - 1) * limit) all) (
        skip-All P ((page - 1) * limit) all (
          arrange-All (build_filter text_score f) order (before text_score f.search) found
            (fh.host.mongo.find_many_fits (build_filter text_score f) s.tasks)))

  -- The board of a workspace shows a user only live tasks of that workspace and of the user's tenant,
  -- and a member only those assigned to him.
  pub list_tasks-IsVisible :
      (user : RequestUser) (workspace_id : String) (query : ListTasksQueryDto) (s : Board fh)
      → (p : TaskPage) → (list_tasks text_score fh order user workspace_id query s).0 ≡ ok p
      → All (IsVisible user workspace_id) p.items
  unfolding list_tasks assert_workspace_belongs_to_tenant
  list_tasks-IsVisible user workspace_id query s p h =
      let f = workspace_filter text_score fh user workspace_id query in
      let page = or_default query.page 1 in
      let limit = or_default query.limit 20 in
      let is : p ≡ page_of text_score fh order f page limit s = ground arith in
      rw is (
        All-imp (λ t. build_filter text_score f t ≡ true) (IsVisible user workspace_id)
          (page_of text_score fh order f page limit s).items
          (filter-IsVisible user workspace_id query) (page-All f page limit s))
