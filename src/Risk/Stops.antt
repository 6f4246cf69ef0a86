-- ===== src/Risk/Stops.antt =====
-- A hard stop of a long position moves up or stays, whatever operations run.
use hanstock_svc.Base.{
  ℕ, String, ◌≡◌, refl, ◌∙◌, false, some, ◌==◌, inl, inr, ℤ, Float, Table, IsTable, Bool-cases,
  Option-cases, get_row, set_row, insert_row, find_row-update_row_self, find_row-update_row_ne,
  find_row-append_row_ne, find_row-lt, find_where-found, pos_part, set_row-IsTable,
  insert_row-IsTable, ok, arith, subst,
}
use hanstock_svc.Schema.{Db, Protection, Position}
use hanstock_svc.Risk.Protections.{
  Protected, request_row, request_position_protection, activate_position_protection, activated,
  fail_position_protection, failed_row, cancel_position_protection, canceled_row,
  request_position_protection_cancel, cancel_pending_row, cancel_requested,
}
use hanstock_svc.Execution.{find_protection, new_protection, re_requested}

module _ {F : Type 0} ⦃fl : Float F⦄ where
  -- No protection is lost, moves to another position, or has its stop lowered.
  pub record StopsKept (t t' : Table (Protection F)) : Type 0 where
    pub keyed : IsTable t'
    pub kept :
        (gid : ℕ) (g : Protection F)
        → get_row gid t ≡ some g
        → (g' : Protection F) × (get_row gid t' ≡ some g')
          × (g'.position_id ≡ g.position_id)
          × (fl.lt g'.current_stop_price g.current_stop_price ≡ false)

  module _
      -- `<` on floats is irreflexive, and its negation is transitive where no NaN occurs.
      (lt_irrefl : (x : F) → fl.lt x x ≡ false)
      (not_lt_trans : (x y z : F) → fl.lt y x ≡ false → fl.lt z y ≡ false → fl.lt z x ≡ false) where
    pub StopsKept-refl : (t : Table (Protection F)) → IsTable t → StopsKept t t
    StopsKept-refl t k = record {
      keyed = k;
      kept = λ gid g e. (g, e, refl, lt_irrefl g.current_stop_price);
    }

    pub StopsKept-trans :
        (t u v : Table (Protection F)) → StopsKept t u → StopsKept u v → StopsKept t v
    StopsKept-trans t u v a b = record {
      keyed = b.keyed;
      kept = λ gid g e.
          let (g1, e1, p1, s1) = a.kept gid g e in
          let (g2, e2, p2, s2) = b.kept gid g1 e1 in
          (
            g2,
            e2,
            p2 ∙ p1,
            not_lt_trans g.current_stop_price g1.current_stop_price g2.current_stop_price s1 s2,
          );
    }

    pub StopsKept-set :
        (t : Table (Protection F)) (gid : ℕ) (g : Protection F) (f : Protection F → Protection F)
        → IsTable t
        → get_row gid t ≡ some g
        → (f g).position_id ≡ g.position_id
        → fl.lt (f g).current_stop_price g.current_stop_price ≡ false
        → StopsKept t (set_row gid f t)
    StopsKept-set t gid g f k e p s = record {
      keyed = set_row-IsTable gid f t k;
      kept = λ i x ex. elim (Bool-cases (i == gid)) [
        | inl same ↦ (
          f g,
          ground (arith, find_row-update_row_self gid f t.rows g e),
          ground arith,
          ground arith,
        )
        | inr other ↦ (
          x,
          ground (arith, find_row-update_row_ne i gid f t.rows),
          refl,
          lt_irrefl x.current_stop_price,
        )
      ];
    }

    pub StopsKept-insert :
        (t : Table (Protection F)) (g : Protection F) → IsTable t → StopsKept t (insert_row g t)
    StopsKept-insert t g k = record {
      keyed = insert_row-IsTable g t k;
      kept = λ i x ex. (
        x,
        ground (
          arith,
          find_row-lt t.next_id i x t.rows k.1 ex,
          find_row-append_row_ne i t.next_id g t.rows,
        ),
        refl,
        lt_irrefl x.current_stop_price,
      );
    }

    pub request_row-StopsKept :
        (pid : ℕ) (p : Position F) (qty : ℕ) (stop : F) (reason now : String) (db db' : Db F)
        (out : Protected F)
        → IsTable db.protections
        → request_row pid p qty stop reason now db (find_protection pid db) ≡ ok (out, db')
        → StopsKept db.protections db'.protections
    unfolding request_row
    request_row-StopsKept pid p qty stop reason now db db' out k h =
        elim (Option-cases (find_protection pid db)) [
          | inl none_yet ↦
              subst (StopsKept db.protections) (ground arith)
                (StopsKept-insert db.protections (new_protection pid p qty stop now) k)
          | inr ((gid, g), e) ↦ subst (StopsKept db.protections) (ground arith) (
              StopsKept-set db.protections gid g (re_requested qty stop now) k
                (find_where-found (λ g. g.position_id == pid) gid g db.protections.rows k.0 e).0
                refl (ground arith))
        ]

    pub request-StopsKept :
        (pid : ℕ) (qty : ℤ) (stop : F) (reason now : String) (db db' : Db F) (out : Protected F)
        → IsTable db.protections
        → request_position_protection pid qty stop reason now db ≡ ok (out, db')
        → StopsKept db.protections db'.protections
    unfolding request_position_protection
    request-StopsKept pid qty stop reason now db db' out k h =
        elim (Option-cases (get_row pid db.positions)) [
          | inl e ↦ absurd (ground arith)
          | inr (p, e) ↦
              request_row-StopsKept pid p (pos_part qty) stop reason now db db' out k (ground arith)
        ]

    pub activate-StopsKept :
        (gid : ℕ) (order : String) (qty : ℤ) (stop : F) (payload now : String) (db db' : Db F)
        (out : Protected F)
        → IsTable db.protections
        → activate_position_protection gid order qty stop payload now db ≡ ok (out, db')
        → StopsKept db.protections db'.protections
    unfolding activate_position_protection
    activate-StopsKept gid order qty stop payload now db db' out k h =
        elim (Option-cases (get_row gid db.protections)) [
          | inl e ↦ absurd (ground arith)
          | inr (g, e) ↦ subst (StopsKept db.protections) (ground arith) (
              StopsKept-set db.protections gid g (activated order (pos_part qty) stop now) k e refl
                (ground arith))
        ]

    pub fail-StopsKept :
        (gid : ℕ) (error payload now : String) (db db' : Db F) (out : Protected F)
        → IsTable db.protections
        → fail_position_protection gid error payload now db ≡ ok (out, db')
        → StopsKept db.protections db'.protections
    unfolding fail_position_protection
    fail-StopsKept gid error payload now db db' out k h =
        elim (Option-cases (get_row gid db.protections)) [
          | inl e ↦ absurd (ground arith)
          | inr (g, e) ↦ subst (StopsKept db.protections) (ground arith) (
              StopsKept-set db.protections gid g (failed_row error now) k e refl
                (lt_irrefl g.current_stop_price))
        ]

    pub cancel-StopsKept :
        (gid : ℕ) (reason now : String) (db db' : Db F) (out : Protected F)
        → IsTable db.protections
        → cancel_position_protection gid reason now db ≡ ok (out, db')
        → StopsKept db.protections db'.protections
    unfolding cancel_position_protection
    cancel-StopsKept gid reason now db db' out k h =
        elim (Option-cases (get_row gid db.protections)) [
          | inl e ↦ absurd (ground arith)
          | inr (g, e) ↦ subst (StopsKept db.protections) (ground arith) (
              StopsKept-set db.protections gid g (canceled_row now) k e refl
                (lt_irrefl g.current_stop_price))
        ]

    pub request_cancel-StopsKept :
        (gid : ℕ) (reason now : String) (db db' : Db F) (out : Protected F)
        → IsTable db.protections
        → request_position_protection_cancel gid reason now db ≡ ok (out, db')
        → StopsKept db.protections db'.protections
    unfolding request_position_protection_cancel
    request_cancel-StopsKept gid reason now db db' out k h =
        elim (Option-cases (get_row gid db.protections)) [
          | inl e ↦ absurd (ground arith)
          | inr (g, e) ↦ elim (Bool-cases (cancel_requested g.status)) [
            | inl done ↦
                subst (StopsKept db.protections) (ground arith) (StopsKept-refl db.protections k)
            | inr todo ↦ subst (StopsKept db.protections) (ground arith) (
                StopsKept-set db.protections gid g (cancel_pending_row now) k e refl
                  (lt_irrefl g.current_stop_price))
          ]
        ]
