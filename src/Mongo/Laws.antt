-- ===== src/Mongo/Laws.antt =====
-- A guarded update that changed a document.
use saa_s_app_be.Prelude.{String, ◌≡◌, ◌∙◌, sym, ap, refl, Bool, true, some, eq_refl}
use saa_s_app_be.Mongo.{Driver, holds}

module _ (mongo : Driver) {D : Type 0} where
  open mongo use {Coll, find_one, update_one, update_one_done, find-update_one}

  pub update_one_hit :
      (k : String) (g : D → Bool) (f : D → D) (c : Coll D) (d : D)
      → find_one k c ≡ some d
      → (update_one k g f c).1 ≡ true
      → (g d ≡ true) × (find_one k (update_one k g f c).0 ≡ some (f d))
  update_one_hit k g f c d found won =
      let fits : g d ≡ true = sym (ap (holds g) found) ∙ sym (update_one_done k g f c) ∙ won in
      (fits, find-update_one k k g f c ∙ (rw (eq_refl k, found, fits) refl))
