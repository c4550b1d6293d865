-- ===== src/Utils/Files/Copies.antt =====
-- What a copy leaves on the disk.
use sprintframework.Common.{ℕ, ◌≡◌, inl, inr, refl, sym, ◌∙◌, arith}
use sprintframework.Common.{none, some, []}
use sprintframework.Common.{
  Bytes, ◌==◌, nat_eq, bytes_eq, if◌then◌else◌, ltb, length, Result, ok, err,
}
use sprintframework.Common.{Bool-cases, Option-cases, Result-cases, ==_self}
use sprintframework.Common.Dict
use sprintframework.Common.Dict.{Dict}
use sprintframework.Utils.Files.{
  File, Node, file, dir, Fs, reading, FileError, Disk, open_truncated, with_mode, chmod,
  set_content, write_all, copy_content, copy_raw, finished, copy_file,
}

module _ (d : Disk) where
  open_truncated-ok :
      (path : Bytes) (perm : ℕ) (fs g : Fs)
      → open_truncated d path perm fs ≡ ok g
      → (m : ℕ) × (g ≡ Dict.insert path (file (record { content = []; mode = m })) fs)
  unfolding open_truncated
  open_truncated-ok path perm fs g h = elim (Option-cases (Dict.lookup path fs)) [
    | inl e ↦ (d.umask perm, ground (arith, e, h))
    | inr (n, e) ↦ node n e
  ]
    where
      node :
          (n : Node)
          → Dict.lookup path fs ≡ some n
          → (m : ℕ) × (g ≡ Dict.insert path (file (record { content = []; mode = m })) fs)
      node (dir m) e = absurd (ground (arith, e, h))
      node (file f) e = (f.mode, ground (arith, e, h))

  write_all-ok :
      (path bytes : Bytes) (fs g : Fs) (count : ℕ)
      → write_all d path bytes fs ≡ (ok count, g)
      → (count ≡ length bytes) × (g ≡ set_content path bytes fs)
  unfolding write_all
  write_all-ok path bytes fs g count h = elim (Option-cases (d.fits path)) [
    | inl e ↦ (ground (arith, e, h), ground (arith, e, h))
    | inr (n, e) ↦ elim (Bool-cases (ltb n (length bytes))) [
      | inl l ↦ absurd (ground (arith, e, l, h))
      | inr l ↦ (ground (arith, e, l, h), ground (arith, e, l, h))
    ]
  ]

  chmod-ok :
      (path : Bytes) (perm : ℕ) (fs : Fs) (f : File)
      → Dict.lookup path fs ≡ some (file f)
      → (chmod d path perm fs).0 ≡ none
      → (chmod d path perm fs).1 ≡ Dict.insert path (file (record f { mode = perm })) fs
  unfolding chmod with_mode
  chmod-ok path perm fs f e h = ground (arith, e, h)

  -- What a copy writes: nothing is left to be read of a file that is its own destination.
  abbrev pub copied : Bytes → Bytes → File → Bytes
  copied src dst f = if src == dst then [] else f.content

  abbrev emptied : Bytes → ℕ → Fs → Fs
  emptied dst m fs = Dict.insert dst (file (record { content = []; mode = m })) fs

  abbrev filled : Bytes → Bytes → ℕ → Fs → Fs
  filled dst bytes m fs = Dict.insert dst (file (record { content = bytes; mode = m })) fs

  set_content-emptied :
      (dst bytes : Bytes) (m : ℕ) (fs : Fs)
      → set_content dst bytes (emptied dst m fs) ≡ filled dst bytes m (emptied dst m fs)
  unfolding set_content
  set_content-emptied dst bytes m fs =
      ground (
        arith,
        Dict.lookup-insert dst dst (file (record { content = []; mode = m })) fs,
        ==_self dst,
      )

  copy_content-write_all :
      (src dst : Bytes) (m : ℕ) (fs : Fs) (f : File)
      → Dict.lookup src fs ≡ some (file f)
      → copy_content d src dst (emptied dst m fs)
        ≡ write_all d dst (copied src dst f) (emptied dst m fs)
  unfolding copy_content
  copy_content-write_all src dst m fs f e = elim (Bool-cases (src == dst)) [
    | inl q ↦
        ground (arith, q, Dict.lookup-insert src dst (file (record { content = []; mode = m })) fs)
    | inr q ↦
        ground
          (arith, q, e, Dict.lookup-insert src dst (file (record { content = []; mode = m })) fs)
  ]

  copy_content-emptied :
      (src dst : Bytes) (m : ℕ) (fs g : Fs) (f : File) (count : ℕ)
      → Dict.lookup src fs ≡ some (file f)
      → copy_content d src dst (emptied dst m fs) ≡ (ok count, g)
      → (count ≡ length (copied src dst f))
        × (g ≡ filled dst (copied src dst f) m (emptied dst m fs))
  copy_content-emptied src dst m fs g f count e h =
      let (c, w) =
        write_all-ok dst (copied src dst f) (emptied dst m fs) g count
          (sym (copy_content-write_all src dst m fs f e) ∙ h) in
      (c, w ∙ set_content-emptied dst (copied src dst f) m fs)

  copy_raw-ok :
      (src dst : Bytes) (perm : ℕ) (fs g : Fs) (f : File) (count : ℕ)
      → Dict.lookup src fs ≡ some (file f)
      → copy_raw d src dst perm fs ≡ (ok count, g)
      → (m : ℕ) × (count ≡ length (copied src dst f))
        × (g ≡ filled dst (copied src dst f) m (emptied dst m fs))
  unfolding copy_raw
  copy_raw-ok src dst perm fs g f count e h = elim (Bool-cases (d.denied reading src)) [
    | inl x ↦ absurd (ground (arith, e, x, h))
    | inr x ↦ elim (Result-cases (open_truncated d dst perm fs)) [
      | inr (y, o) ↦ absurd (ground (arith, e, x, o, h))
      | inl (g0, o) ↦
          let (m, q) = open_truncated-ok dst perm fs g0 o in
          let r : copy_content d src dst g0 ≡ (ok count, g) = ground (arith, e, x, o, h) in
          let (c, w) = copy_content-emptied src dst m fs g f count e (rw (q) at r) in (m, c, w)
    ]
  ]

  finished-ok :
      (dst bytes : Bytes) (perm m count : ℕ) (fs g : Fs)
      → count ≡ length bytes
      → g ≡ filled dst bytes m (emptied dst m fs)
      → (chmod d dst perm g).0 ≡ none
      → (count ≡ length bytes)
        × ((j : Bytes)
            → Dict.lookup j (chmod d dst perm g).1 ≡ (
                if j == dst
                then some (file (record { content = bytes; mode = perm }))
                else Dict.lookup j fs))
  finished-ok dst bytes perm m count fs g c q h =
      let f : File = record { content = bytes; mode = m } in
      let found : Dict.lookup dst g ≡ some (file f) =
        rw (q)
          (ground (arith, Dict.lookup-insert dst dst (file f) (emptied dst m fs), ==_self dst)) in
      (
        c,
        (λ j. ground (
          arith,
          chmod-ok dst perm g f found h,
          Dict.lookup-insert j dst (file (record { content = bytes; mode = perm })) g,
          q,
          Dict.lookup-insert j dst (file f) (emptied dst m fs),
          Dict.lookup-insert j dst (file (record { content = []; mode = m })) fs,
        )),
      )

  finished-raw :
      (src dst : Bytes) (perm : ℕ) (fs : Fs) (f : File) (p : Result FileError ℕ × Fs)
      → Dict.lookup src fs ≡ some (file f)
      → copy_raw d src dst perm fs ≡ p
      → (finished d dst perm p).1 ≡ none
      → ((finished d dst perm p).0 ≡ length (copied src dst f))
        × ((j : Bytes)
            → Dict.lookup j (finished d dst perm p).2 ≡ (
                if j == dst
                then some (file (record { content = copied src dst f; mode = perm }))
                else Dict.lookup j fs))
  unfolding finished
  finished-raw src dst perm fs f (err x, g) e q h = absurd (ground (arith, h))
  finished-raw src dst perm fs f (ok count, g) e q h =
      let (m, c, w) = copy_raw-ok src dst perm fs g f count e q in
      finished-ok dst (copied src dst f) perm m count fs g c w h

  -- A copy that reports no error has written the file: the destination has the content of the
  -- source and the given mode, every other path is as it was, and the count is the length. But a
  -- file that is copied to its own path is left empty.
  pub copy_file_lem :
      (src dst : Bytes) (perm : ℕ) (fs : Fs) (f : File)
      → Dict.lookup src fs ≡ some (file f)
      → (copy_file d src dst perm fs).1 ≡ none
      → let bytes = if src == dst then [] else f.content in
        ((copy_file d src dst perm fs).0 ≡ length bytes)
        × ((j : Bytes)
            → Dict.lookup j (copy_file d src dst perm fs).2 ≡ (
                if j == dst
                then some (file (record { content = bytes; mode = perm }))
                else Dict.lookup j fs))
  unfolding copy_file
  copy_file_lem src dst perm fs f e h =
      finished-raw src dst perm fs f (copy_raw d src dst perm fs) e refl h
