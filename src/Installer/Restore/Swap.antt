-- ===== src/Installer/Restore/Swap.antt =====
-- installer/backup_archive.py `_copy_tree`: the renames leave the old directory or the new one.
use ez_open_pn.Prelude.{
  ℕ, ◌+◌, ◌<◌, ◌≡◌, ◌⊎◌, refl, ◌∙◌, true, false, Option, none, some, arith, Bool-cases, inl, inr,
}
use ez_open_pn.Errors.{Exn, Result, ok, err, os_error}
use ez_open_pn.Installer.Io.{
  ◌>>=◌, ◌>>◌, on_error, then_raise, Entry, file, tree, link, special, Place, Disk, Os, same_place,
}
use ez_open_pn.Installer.Disk.{find, put, remove, call, exists, leads, replace, may_replace, rmtree}
use ez_open_pn.Installer.Disk.Laws.{
  Keeps, Keeps-on_error, Stands, Stands-rmtree, find-put_self, find-put_other, find-remove_self,
  find-remove_other,
}
use ez_open_pn.Installer.Restore.{move_back, swap_trees}

module _ (os : Os) where
  abbrev ticked : Disk → Disk
  ticked d = record d { calls = d.calls + 1 }

  replace_refused :
      (p q : Place) (d : Disk)
      → os.refuses d.calls ≡ true
      → replace os p q d ≡ (err os_error, ticked d)
  unfolding replace call ◌>>=◌
  replace_refused p q d h = rw h refl

  replace_done :
      (p q : Place) (e : Entry) (d : Disk)
      → os.refuses d.calls ≡ false
      → find p d.places ≡ some e
      → may_replace e (find q d.places) ≡ true
      → replace os p q d
        ≡ (ok tt, record d { places = put q e (remove p d.places); calls = d.calls + 1 })
  unfolding replace call ◌>>=◌
  replace_done p q e d h f m = rw (h, f, m) refl

  replace_blocked :
      (p q : Place) (e : Entry) (d : Disk)
      → os.refuses d.calls ≡ false
      → find p d.places ≡ some e
      → may_replace e (find q d.places) ≡ false
      → replace os p q d ≡ (err os_error, ticked d)
  unfolding replace call ◌>>=◌
  replace_blocked p q e d h f m = rw (h, f, m) refl

  exists_refused :
      (p : Place) (d : Disk) → os.refuses d.calls ≡ true → exists os p d ≡ (err os_error, ticked d)
  unfolding exists call ◌>>=◌
  exists_refused p d h = rw h refl

  exists_done :
      (p : Place) (d : Disk)
      → os.refuses d.calls ≡ false
      → exists os p d ≡ (ok (leads (find p d.places)), ticked d)
  unfolding exists call ◌>>=◌
  exists_done p d h = rw h refl

  raised : (e : Exn) (r : Result (Unit {0})) (d : Disk) → (then_raise {A = Unit {0}} e r d).1 ≡ d
  raised e (ok u) d = refl
  raised e (err x) d = refl

  -- While the destination is there, the handler moves nothing.
  Stands-move_back :
      (old destination : Place) (e : Entry)
      → leads (some e) ≡ true
      → Keeps (Stands destination (some e)) (move_back os old destination)
  unfolding move_back
  Stands-move_back old destination e l = record {
    at = λ d h. elim (Bool-cases (os.refuses d.calls)) [ inl r ↦ rw r h | inr r ↦ rw (r, h, l) h ];
  }

  -- With no refusal, it moves the old directory back to where nothing is.
  moved_back :
      (old destination : Place) (e : Entry) (d : Disk)
      → ((i : ℕ) → d.calls < i + 1 → os.refuses i ≡ false)
      → leads (some e) ≡ true
      → find destination d.places ≡ none
      → find old d.places ≡ some e
      → find destination (move_back os old destination d).1.places ≡ some e
  unfolding move_back
  moved_back old destination e d calm l n o =
      rw
        (
          calm d.calls (omega arith),
          n,
          calm (d.calls + 1) (omega arith),
          o,
          l,
          calm (d.calls + 1 + 1) (omega arith),
          o,
          n,
        )
        (find-put_self destination e (remove old d.places))

  module _ (temporary old destination : Place) (t : Entry) (d : Disk)
      (new : find temporary d.places ≡ some t) (t_leads : leads (some t) ≡ true)
      (apart_temporary : same_place temporary old ≡ false)
      (apart_old : same_place destination old ≡ false)
      (apart_destination : same_place temporary destination ≡ false)
      (once : (i j : ℕ) → i < j → os.refuses i ≡ true → os.refuses j ≡ false) where
    -- As before, or the new entry.
    Either : Option Entry → Disk → Type 0
    Either o d' = (find destination d'.places ≡ o) ⊎ (find destination d'.places ≡ some t)

    -- The two renames once the old directory was moved away.
    second_rename :
        (e : Entry) (d1 : Disk)
        → leads (some e) ≡ true
        → find destination d1.places ≡ none
        → find old d1.places ≡ some e
        → find temporary d1.places ≡ some t
        → Either
            (some e)
            (on_error
              (replace os temporary destination >> rmtree os old)
              (move_back os old destination)
              d1).1
    unfolding Either on_error ◌>>=◌
    second_rename e d1 l n o x = elim (Bool-cases (os.refuses d1.calls)) [
      | inl r ↦
          rw
            (
              replace_refused temporary destination d1 r,
              raised os_error (move_back os old destination (ticked d1)).0
                  (move_back os old destination (ticked d1)).1,
            )
            (inl (
              moved_back old destination e (ticked d1) (λ i k. once d1.calls i (calm_after i k) r) l
                n o))
      | inr r ↦ rw (replace_done temporary destination t d1 r x (rw n refl)) (
          inr (
            (Keeps-on_error (rmtree os old) (move_back os old destination)
                (Stands-rmtree os destination (some t) old apart_old)
                (Stands-move_back old destination t t_leads)).at
              _ (find-put_self destination t (remove temporary d1.places))))
    ]
      where
        calm_after : (i : ℕ) → (ticked d1).calls < i + 1 → d1.calls < i
        calm_after i k = omega arith

    -- From a destination that is a tree, or is not there.
    swapped_over :
        (e : Entry) (d1 : Disk)
        → leads (some e) ≡ true
        → find destination d1.places ≡ some e
        → find temporary d1.places ≡ some t
        → Either
            (some e)
            ((replace os destination old
                >> on_error
                    (replace os temporary destination >> rmtree os old)
                    (move_back os old destination))
              d1).1
    unfolding Either ◌>>=◌
    swapped_over e d1 l h x = elim (Bool-cases (os.refuses d1.calls)) [
      | inl r ↦ rw (replace_refused destination old d1 r) (inl h)
      | inr r ↦ elim (Bool-cases (may_replace e (find old d1.places))) [
        | inr b ↦ rw (replace_blocked destination old e d1 r h b) (inl h)
        | inl b ↦ rw (replace_done destination old e d1 r h b) (
            second_rename e _ l
              (find-put_other destination old e (remove destination d1.places) apart_old
                ∙ find-remove_self destination d1.places)
              (find-put_self old e (remove destination d1.places))
              (find-put_other temporary old e (remove destination d1.places) apart_temporary
                ∙ (find-remove_other temporary destination d1.places apart_destination ∙ x)))
      ]
    ]

    -- To a destination that is not there, or that leads nowhere.
    placed :
        (o : Option Entry) (d1 : Disk)
        → find destination d1.places ≡ o
        → find temporary d1.places ≡ some t
        → Either o (replace os temporary destination d1).1
    unfolding Either
    placed o d1 h x = elim (Bool-cases (os.refuses d1.calls)) [
      | inl r ↦ rw (replace_refused temporary destination d1 r) (inl h)
      | inr r ↦ elim (Bool-cases (may_replace t (find destination d1.places))) [
        | inr b ↦ rw (replace_blocked temporary destination t d1 r x b) (inl h)
        | inl b ↦
            rw (replace_done temporary destination t d1 r x b)
              (inr (find-put_self destination t (remove temporary d1.places)))
      ]
    ]

    swap_from :
        (o : Option Entry)
        → find destination d.places ≡ o
        → os.refuses d.calls ≡ false
        → Either o (swap_trees os temporary old destination d).1
    unfolding swap_trees ◌>>=◌ Either
    swap_from none h r = rw (exists_done destination d r, h) (placed none (ticked d) h new)
    swap_from (some (tree a files)) h r =
        rw (exists_done destination d r, h, h) (swapped_over (tree a files) (ticked d) refl h new)
    swap_from (some (link false)) h r =
        rw (exists_done destination d r, h) (placed (some (link false)) (ticked d) h new)
    swap_from (some (link true)) h r = rw (exists_done destination d r, h, h) (inl h)
    swap_from (some (file x)) h r = rw (exists_done destination d r, h, h) (inl h)
    swap_from (some special) h r = rw (exists_done destination d r, h, h) (inl h)

    pub swap_trees-Either :
        (find destination (swap_trees os temporary old destination d).1.places
          ≡ find destination d.places)
        ⊎ (find destination (swap_trees os temporary old destination d).1.places ≡ some t)
    unfolding swap_trees ◌>>=◌ Either
    swap_trees-Either = elim (Bool-cases (os.refuses d.calls)) [
      | inl r ↦ rw (exists_refused destination d r) (inl refl)
      | inr r ↦ swap_from (find destination d.places) refl r
    ]
