-- ===== src/Libelf/Ar/Member/Header.antt =====
-- The descriptor of a member's header, next to the member itself.
use elftoolchain.Base.{ℕ, ◌%◌, ◌^◌, ◌≡◌, sym, ap, ◌∙◌, Bool, Option, none, some, arith}
use elftoolchain.Libelf.Ar.Outcome.{
  Outcome, ok, err, undefined, ok->>=, or_archive, ar_uid, ar_gid, ar_mode, ar_date, ar_size,
}
use elftoolchain.Libelf.Ar.Number.{get_number}
use elftoolchain.Libelf.Ar.Names.{get_translated_name, get_raw_name}
use elftoolchain.Libelf.Ar.Open.{Archive}
use elftoolchain.Libelf.Ar.Member.{
  Arhdr, Member, bsd_name_size, sub_size, as_archive, read_arhdr, gethdr, open_member,
}
use elftoolchain.Libelf.Ar.Member.Walk.{open_member-Opened, same_number, same_size}

or_archive-ok : (x : Option ℕ) (n : ℕ) → or_archive x ≡ ok n → x ≡ some n
or_archive-ok none n h = cc h
or_archive-ok (some m) n h = cc h

as_archive-ok : (o : Outcome Arhdr) (r : Arhdr) → as_archive o ≡ ok r → o ≡ ok r
as_archive-ok (ok x) r h = h
as_archive-ok (err x) r h = cc h
as_archive-ok undefined r h = cc h

module _ (alloc : ℕ → Bool) where
  -- The fields of a descriptor are the numbers and the names of the header.
  pub record Described (a : Archive) (h : ℕ) (r : Arhdr) : Type 0 where
    pub uid : ℕ
    pub gid : ℕ
    pub mode : ℕ
    pub sz : ℕ
    pub nsz : ℕ
    pub name_read : get_translated_name alloc a.rawfile a.rawstrtab a.rawstrtabsz h ≡ ok r.name
    pub rawname_read : get_raw_name alloc a.rawfile h ≡ ok r.rawname
    pub uid_read : get_number (ar_uid a.rawfile h) 10 ≡ some uid
    pub gid_read : get_number (ar_gid a.rawfile h) 10 ≡ some gid
    pub mode_read : get_number (ar_mode a.rawfile h) 8 ≡ some mode
    pub date_read : get_number (ar_date a.rawfile h) 10 ≡ some r.date
    pub size_read : get_number (ar_size a.rawfile h) 10 ≡ some sz
    pub name_size : bsd_name_size a.rawfile h ≡ ok nsz
    pub uid_is : r.uid ≡ uid % 2 ^ 32
    pub gid_is : r.gid ≡ gid % 2 ^ 32
    pub mode_is : r.mode ≡ mode % 2 ^ 32
    pub size_is : r.size ≡ sub_size sz nsz

  read_arhdr-Described :
      (a : Archive) (h : ℕ) (r : Arhdr) → read_arhdr alloc a h ≡ ok r → Described a h r
  unfolding read_arhdr
  read_arhdr-Described a h r e =
      let f = a.rawfile in
      let (name, name_read, e) =
        ok->>= (get_translated_name alloc f a.rawstrtab a.rawstrtabsz h) _ r e in
      let (uid, uid_read, e) = ok->>= (or_archive (get_number (ar_uid f h) 10)) _ r e in
      let (gid, gid_read, e) = ok->>= (or_archive (get_number (ar_gid f h) 10)) _ r e in
      let (mode, mode_read, e) = ok->>= (or_archive (get_number (ar_mode f h) 8)) _ r e in
      let (date, date_read, e) = ok->>= (or_archive (get_number (ar_date f h) 10)) _ r e in
      let (sz, size_read, e) = ok->>= (or_archive (get_number (ar_size f h) 10)) _ r e in
      let (nsz, name_size, e) = ok->>= (bsd_name_size f h) _ r e in
      let (rawname, rawname_read, e) = ok->>= (get_raw_name alloc f h) _ r e in
      record {
        uid = uid;
        gid = gid;
        mode = mode;
        sz = sz;
        nsz = nsz;
        name_read = name_read ∙ ap ok (cc e);
        rawname_read = rawname_read ∙ ap ok (cc e);
        uid_read = or_archive-ok _ uid uid_read;
        gid_read = or_archive-ok _ gid gid_read;
        mode_read = or_archive-ok _ mode mode_read;
        date_read = or_archive-ok _ date date_read ∙ ap some (cc e);
        size_read = or_archive-ok _ sz size_read;
        name_size = name_size;
        uid_is = cc e;
        gid_is = cc e;
        mode_is = cc e;
        size_is = cc e;
      }

  pub gethdr-Described :
      (a : Archive) (h : ℕ) (r : Arhdr) → gethdr alloc a h ≡ ok r → Described a h r
  unfolding gethdr
  gethdr-Described a h r e =
      read_arhdr-Described a h r (as_archive-ok (read_arhdr alloc a h) r (ground arith))

  -- Where a member was opened and `_libelf_ar_gethdr` returns its header, the size in the header is
  -- the size of the member.
  pub gethdr-open_member :
      (a : Archive) (e : Member) (b : Archive) (r : Arhdr)
      → open_member a ≡ ok (some e, b)
      → gethdr alloc b e.rawhdr ≡ ok r
      → r.size ≡ e.rawsize
  gethdr-open_member a e b r h g =
      let o = open_member-Opened a e b h in
      let d = gethdr-Described b e.rawhdr r g in
      let same = ap (λ (c : Archive). c.rawfile) o.counted in
      let read : get_number (ar_size a.rawfile a.next) 10 ≡ some d.sz =
        rw (same, o.header) at d.size_read in
      let named : bsd_name_size a.rawfile a.next ≡ ok d.nsz = rw (same, o.header) at d.name_size in
      let p = same_number (get_number (ar_size a.rawfile a.next) 10) d.sz o.sz read o.size_field in
      let q = same_size (bsd_name_size a.rawfile a.next) d.nsz o.nsz named o.name_size in
      d.size_is ∙ rw (p, q) (sym o.size)
