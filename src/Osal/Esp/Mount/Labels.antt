-- ===== src/Osal/Esp/Mount/Labels.antt =====
-- Mounting and unmounting in src/osal/esp/osal_mount_impl.c, and the label that the calls share.
use hq_platform.Base.{
  ◌≡◌, ◌≢◌, refl, ◌∙◌, Bool, true, false, Option, none, some, arith, Option-cases, inl, inr,
}
use hq_platform.Base.Text.{CString}
use hq_platform.Osal.Status.{Status, success, error}
use hq_platform.Osal.Esp.Mount.{
  EspLittlefs, Volume, chosen_point, validate_text, is_ok, stored, initfs, mount, mount_registered,
  unmount,
}

-- What esp_littlefs documents of registrations: a partition is registered once, the others stay as
-- they are, and only one that is registered can be unregistered.
pub record Documented (L : EspLittlefs) : Type 0 where
  pub registered : L.Vfs → CString → Bool
  pub register_once :
      (vfs : L.Vfs) (point label : CString)
      → (L.register vfs point label).0 ≡ true
      → (registered vfs label ≡ false) × (registered (L.register vfs point label).1 label ≡ true)
  pub unregister_known :
      (vfs : L.Vfs) (label : CString) → (L.unregister vfs label).0 ≡ registered vfs label
  pub unregister_gone :
      (vfs : L.Vfs) (label : CString)
      → registered vfs label ≡ true
      → registered (L.unregister vfs label).1 label ≡ false

module _ (L : EspLittlefs) (D : Documented L) where
  unmount-known :
      (w : Volume L) (point : CString)
      → w.mounted ≡ true
      → is_ok (validate_text (some point)) ≡ true
      → D.registered w.vfs w.partition_label ≡ true
      → ((unmount L w (some point)).0 ≡ success)
        × ((unmount L w (some point)).1.mounted ≡ false)
        × (D.registered (unmount L w (some point)).1.vfs w.partition_label ≡ false)
  unfolding unmount
  unmount-known w point up fine known =
      let answer = D.unregister_known w.vfs w.partition_label ∙ known in
      rw (fine, up, answer) (refl, refl, D.unregister_gone w.vfs w.partition_label known)

  unmount-unknown :
      (w : Volume L) (point : CString)
      → w.mounted ≡ true
      → is_ok (validate_text (some point)) ≡ true
      → D.registered w.vfs w.partition_label ≡ false
      → ((unmount L w (some point)).0 ≡ error) × ((unmount L w (some point)).1.mounted ≡ true)
  unfolding unmount
  unmount-unknown w point up fine unknown =
      let answer = D.unregister_known w.vfs w.partition_label ∙ unknown in
      rw (fine, up, answer) (refl, refl)

  not_ok : (st : Status) → is_ok st ≡ false → st ≢ success
  not_ok st h e = cc

  mount-inverts :
      (v : Volume L) (devname point : CString)
      → (mount L v (some devname) (some point)).0 ≡ success
      → (is_ok (validate_text (some point)) ≡ true)
        × ((L.register v.vfs (stored point) (stored devname)).0 ≡ true)
        × ((mount L v (some devname) (some point)).1 ≡ record v {
          mounted = true;
          mount_point = stored point;
          partition_label = stored devname;
          vfs = (L.register v.vfs (stored point) (stored devname)).1;
        })
  unfolding mount mount_registered
  mount-inverts v devname point h =
      ground (arith, not_ok (validate_text (some devname)), not_ok (validate_text (some point)))

  --
  pub mount-unmount :
      (v : Volume L) (devname point : CString)
      → (mount L v (some devname) (some point)).0 ≡ success
      → let up = (mount L v (some devname) (some point)).1 in
        (up.mounted ≡ true)
        × ((unmount L up (some point)).0 ≡ success)
        × ((unmount L up (some point)).1.mounted ≡ false)
        × (D.registered (unmount L up (some point)).1.vfs (stored devname) ≡ false)
  mount-unmount v devname point h =
      let (fine, made, at) = mount-inverts v devname point h in
      let up = record v {
        mounted = true;
        mount_point = stored point;
        partition_label = stored devname;
        vfs = (L.register v.vfs (stored point) (stored devname)).1;
      } in
      let known = (D.register_once v.vfs (stored point) (stored devname) made).1 in
      let (freed, gone, unknown) = unmount-known up point refl fine known in
      rw at (refl, freed, gone, unknown)

  -- A volume name that `osal_initfs` takes: NULL, empty or valid.
  abbrev pub is_name : Option CString → Bool
  is_name volname = elim (chosen_point L volname) [
    | none ↦ true
    | some name ↦ is_ok (validate_text (some name))
  ]

  initfs-labels :
      (v : Volume L) (other : CString) (volname : Option CString)
      → is_ok (validate_text (some other)) ≡ true
      → is_name volname ≡ true
      → (name : CString) × (initfs L v (some other) volname
          ≡ (success, record v { partition_label = stored other; mount_point = name }))
  unfolding initfs
  initfs-labels v other volname fine named = elim (Option-cases (chosen_point L volname)) [
    | inl nothing ↦ (v.mount_point, rw (fine, nothing) refl)
    | inr (name, given) ↦
        let good : is_ok (validate_text (some name)) ≡ true = rw (given, is_name) at named in
        (stored name, rw (fine, given, good) refl)
  ]

  -- On a mounted ESP volume, `osal_initfs` of another valid partition that is not registered, with
  -- a volume name that is NULL, empty or valid, returns OSAL_SUCCESS; then `osal_unmount` fails and
  -- the volume counts as mounted, if esp_littlefs unregisters only what is registered.
  pub initfs-loses :
      (v : Volume L) (other point : CString) (volname : Option CString)
      → v.mounted ≡ true
      → is_ok (validate_text (some other)) ≡ true
      → is_name volname ≡ true
      → is_ok (validate_text (some point)) ≡ true
      → D.registered v.vfs (stored other) ≡ false
      → let named = (initfs L v (some other) volname).1 in
        ((initfs L v (some other) volname).0 ≡ success)
        × ((unmount L named (some point)).0 ≡ error)
        × ((unmount L named (some point)).1.mounted ≡ true)
  initfs-loses v other point volname up fine good fine_point unknown =
      let (name, labelled) = initfs-labels v other volname fine good in
      let named = record v { partition_label = stored other; mount_point = name } in
      let (refused, still) = unmount-unknown named point up fine_point unknown in
      rw labelled (refl, refused, still)
