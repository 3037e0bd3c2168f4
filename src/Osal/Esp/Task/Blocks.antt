-- ===== src/Osal/Esp/Task/Blocks.antt =====
-- The blocks that the registry of src/osal/esp/osal_task_impl.c holds.
use hq_platform.Base.{
  ℕ, ◌+◌, ◌==◌, ◌≡◌, refl, sym, subst, ◌⊎◌, Bool, List, [], ◌∷◌, ◌++◌, Option, none, some, arith,
  length, if◌then◌else◌, Bool-cases, Option-cases, inl, inr,
}
use hq_platform.Base.Text.{CString}
use hq_platform.Osal.Resources.{
  Event, block, storage, acquired, released, acquired-append, released-append,
}
use hq_platform.Osal.Task.{TaskAttr}
use hq_platform.Osal.Esp.Task.{
  Entry, Registry, CreateEnv, detach, create_static, create_dynamic, create, delete,
}

-- Of each of the two kinds of blocks, as many are held as there are entries.
abbrev pub Balanced : Registry → Type 0
Balanced s =
    (acquired block s.trace ≡ released block s.trace + length s.entries)
    × (acquired storage s.trace ≡ released storage s.trace + length s.entries)

-- An entry that is found is taken out, and only that.
detach-length :
    (handle : ℕ) (entries : List Entry)
    → let (found, rest) = detach handle entries in
      length rest + (if found then 1 else 0) ≡ length entries
unfolding detach
detach-length handle [] = refl
detach-length handle (entry ∷ entries) =
    let rest = detach-length handle entries in ground (arith, rest)

then_Balanced :
    (s : Registry) (entries : List Entry) (es : List Event)
    → Balanced s
    → acquired block es + length s.entries ≡ released block es + length entries
    → acquired storage es + length s.entries ≡ released storage es + length entries
    → Balanced (record s { entries = entries; trace = s.trace ++ es })
then_Balanced s entries es (blocks, stores) hb hs = (
  omega (arith, blocks, hb, acquired-append block s.trace es, released-append block s.trace es),
  omega (arith, stores, hs, acquired-append storage s.trace es, released-append storage s.trace es),
)

create_static-Balanced :
    (env : CreateEnv) (s : Registry) → Balanced s → Balanced (create_static env s).2
unfolding create_static
create_static-Balanced env s b = elim (Bool-cases env.entry_ok) [
  | inr no_entry ↦ rw no_entry b
  | inl entry ↦ elim (Bool-cases env.tcb_ok) [
    | inr no_tcb ↦ rw (entry, no_tcb) (then_Balanced s s.entries _ b (omega arith) (omega arith))
    | inl tcb ↦ elim (Option-cases env.handle) [
      | inl failed ↦
          rw (entry, tcb, failed) (then_Balanced s s.entries _ b (omega arith) (omega arith))
      | inr (handle, made) ↦
          rw (entry, tcb, made)
            (then_Balanced s (record { handle = handle } ∷ s.entries) _ b (omega arith)
              (omega arith))
    ]
  ]
]

create_dynamic-same : (env : CreateEnv) (s : Registry) → (create_dynamic env s).2 ≡ s
unfolding create_dynamic
create_dynamic-same env s = ground arith

create-cases :
    (env : CreateEnv) (s : Registry) (task_id routine : Bool) (name : Option CString)
    (stack_pointer : Bool) (stack_size priority : ℕ) (attr : Option TaskAttr)
    → let made = create env s task_id routine name stack_pointer stack_size priority attr in
      (made ≡ create_static env s) ⊎ (made.2 ≡ s)
unfolding create
create-cases env s task_id routine none stack_pointer stack_size priority attr = inr refl
create-cases env s task_id routine (some name) stack_pointer stack_size priority attr =
    ground (arith, create_dynamic-same env s)

create-Balanced :
    (env : CreateEnv) (s : Registry) (task_id routine : Bool) (name : Option CString)
    (stack_pointer : Bool) (stack_size priority : ℕ) (attr : Option TaskAttr)
    → Balanced s
    → Balanced (create env s task_id routine name stack_pointer stack_size priority attr).2
create-Balanced env s task_id routine name stack_pointer stack_size priority attr b =
    elim (create-cases env s task_id routine name stack_pointer stack_size priority attr) [
      | inl static ↦ subst (λ z. Balanced z.2) (sym static) (create_static-Balanced env s b)
      | inr same ↦ subst Balanced (sym same) b
    ]

delete-Balanced :
    (current : ℕ) (s : Registry) (task_id : Option ℕ)
    → Balanced s
    → Balanced (delete current s task_id).1
unfolding delete
delete-Balanced current s none b = b
delete-Balanced current s (some task_id) b =
    let taken = detach-length task_id s.entries in
    let (found, rest) = detach task_id s.entries in
    elim (Bool-cases (task_id == current)) [
      | inl self ↦ rw self b
      | inr other ↦ elim (Bool-cases (detach task_id s.entries).0) [
        | inl there ↦
            let fewer : length (detach task_id s.entries).1 + 1 ≡ length s.entries =
              rw there at taken in
            rw (other, there)
              (then_Balanced s (detach task_id s.entries).1 _ b (omega (arith, fewer))
                (omega (arith, fewer)))
        | inr missing ↦
            let same : length (detach task_id s.entries).1 + 0 ≡ length s.entries =
              rw missing at taken in
            rw (other, missing)
              (then_Balanced s (detach task_id s.entries).1 [] b (omega (arith, same))
                (omega (arith, same)))
      ]
    ]

-- The calls of `osal_task_create` and `osal_task_delete`, each with the task that runs.
pub data Reach (s : Registry) : Registry → Type 0 where
  here : Reach s s
  creates :
      {t : Registry} (env : CreateEnv) (task_id routine : Bool) (name : Option CString)
      (stack_pointer : Bool) (stack_size priority : ℕ) (attr : Option TaskAttr)
      → Reach s t
      → Reach s (create env t task_id routine name stack_pointer stack_size priority attr).2
  deletes :
      {t : Registry} (current : ℕ) (task_id : Option ℕ)
      → Reach s t
      → Reach s (delete current t task_id).1

Reach-Balanced_from : {s t : Registry} → Reach s t → Balanced s → Balanced t
Reach-Balanced_from here b = b
Reach-Balanced_from
      (creates env task_id routine name stack_pointer stack_size priority attr history) b =
    create-Balanced env _ task_id routine name stack_pointer stack_size priority attr
      (Reach-Balanced_from history b)
Reach-Balanced_from (deletes current task_id history) b =
    delete-Balanced current _ task_id (Reach-Balanced_from history b)

-- On the ESP port, in every history of `osal_task_create` and `osal_task_delete` from an empty
-- registry, whatever their arguments are and whatever fails on the way, as many entries and as many
-- control blocks are held as there are entries in the registry. No two of the calls run at the same
-- time.
pub Reach-Balanced : {t : Registry} → Reach (record { entries = []; trace = [] }) t → Balanced t
Reach-Balanced history = Reach-Balanced_from history (refl, refl)
