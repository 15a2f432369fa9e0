-- ===== src/Libelf/Ar/Member/Walk.antt =====
-- Walking over an archive: a member lies in the file, and each step moves forward or ends the walk.
use elftoolchain.Base.{
  ℕ, ◌+◌, ◌-◌, ◌%◌, ◌^◌, ◌≤◌, ◌<◌, ◌≡◌, ap, ◌∙◌, ◌⊎◌, inl, inr, true, Option, some, Bytes, length,
  drop, arith, Option-cases,
}
use native.Mathlib.Decide.{dec_lt}
use elftoolchain.Libelf.Ar.Outcome.{Outcome, ok, ok->>=, ar_size, ar_name}
use elftoolchain.Libelf.Ar.Number.{get_number}
use elftoolchain.Libelf.Ar.Number.Laws.{get_number_bound}
use elftoolchain.Libelf.Ar.Open.{Archive}
use elftoolchain.Libelf.Ar.Memory.{elf_memory}
use elftoolchain.Libelf.Ar.Memory.Kinds.{elf_memory-size}
use elftoolchain.Libelf.Ar.Member.{
  bsd_name_size, sub_size, Member, make_member, open_sized, open_member, next_offset, elf_next,
}

-- What opening the member at e_next found: its size field, and the part of it that is a name.
pub record Opened (a : Archive) (e : Member) (b : Archive) : Type 0 where
  pub sz : ℕ
  pub nsz : ℕ
  pub size_field : get_number (ar_size a.rawfile a.next) 10 ≡ some sz
  pub name_size : bsd_name_size a.rawfile a.next ≡ ok nsz
  pub fits : a.next + 60 + sz ≤ length a.rawfile
  pub image : elf_memory (drop (a.next + 60 + nsz) a.rawfile) (sub_size sz nsz) ≡ ok e.image
  pub at : e.rawfile ≡ a.next + 60 + nsz
  pub size : e.rawsize ≡ sub_size sz nsz
  pub header : e.rawhdr ≡ a.next
  pub counted : b ≡ record a { nchildren = a.nchildren + 1 }

open_sized-Opened :
    (a : Archive) (sz : ℕ) (e : Member) (b : Archive)
    → get_number (ar_size a.rawfile a.next) 10 ≡ some sz
    → a.next + 60 + sz ≤ length a.rawfile
    → open_sized a sz ≡ ok (some e, b)
    → Opened a e b
unfolding open_sized make_member
open_sized-Opened a sz e b read fits h =
    let (nsz, named, h1) = ok->>= (bsd_name_size a.rawfile a.next) _ (some e, b) h in
    let (image, opened, h2) =
      ok->>= (elf_memory (drop (a.next + 60 + nsz) a.rawfile) (sub_size sz nsz)) _ (some e, b) h1 in
    record {
      sz = sz;
      nsz = nsz;
      size_field = read;
      name_size = named;
      fits = fits;
      image = opened ∙ ap ok (cc h2);
      at = cc h2;
      size = cc h2;
      header = cc h2;
      counted = cc h2;
    }

pub open_member-Opened :
    (a : Archive) (e : Member) (b : Archive) → open_member a ≡ ok (some e, b) → Opened a e b
unfolding open_member
open_member-Opened a e b h = elim (Option-cases (get_number (ar_size a.rawfile a.next) 10)) [
  | inl none_read ↦ ground arith
  | inr (sz, read) ↦ elim (dec_lt (length a.rawfile) (a.next + 60 + sz)) [
    | yes out ↦ ground arith
    | no fits ↦ open_sized-Opened a sz e b read (omega arith) (ground arith)
  ]
]

bsd_name_size_bound : (f : Bytes) (h n : ℕ) → bsd_name_size f h ≡ ok n → n < 2 ^ 64
unfolding bsd_name_size
bsd_name_size_bound f h n e = elim (Option-cases (get_number (drop 3 (ar_name f h)) 10)) [
  | inl none_read ↦ ground arith
  | inr (k, read) ↦ ground (arith, get_number_bound (drop 3 (ar_name f h)) 10 k read)
]

sub_size-le : (n k : ℕ) → k ≤ n → n < 2 ^ 64 → sub_size n k ≡ n - k
sub_size-le n k le b = omega arith

add-sub_size :
    (s n k l : ℕ)
    → n < 2 ^ 64
    → k < 2 ^ 64
    → s + n < l
    → l < 2 ^ 64
    → (s + k + sub_size n k) % 2 ^ 64 ≡ s + n
add-sub_size s n k l n_fits k_fits inside fits = omega arith

-- The size field and the length of the name are what `Opened` says.
pub same_number : (x : Option ℕ) (m n : ℕ) → x ≡ some m → x ≡ some n → m ≡ n
same_number x m n p q = cc (p, q)

pub same_size : (x : Outcome ℕ) (m n : ℕ) → x ≡ ok m → x ≡ ok n → m ≡ n
same_size x m n p q = cc (p, q)

-- An opened member whose BSD name is not longer than its size field says starts behind the header
-- and the name, ends where the size field says, is not empty and lies inside the file;
-- `e_nchildren` is one more and `e_next` is unchanged.
pub open_member_inside :
    (a : Archive) (e : Member) (b : Archive) (sz nsz : ℕ)
    → open_member a ≡ ok (some e, b)
    → get_number (ar_size a.rawfile a.next) 10 ≡ some sz
    → bsd_name_size a.rawfile a.next ≡ ok nsz
    → nsz ≤ sz
    → (e.rawfile ≡ a.next + 60 + nsz)
      × (e.rawfile + e.rawsize ≡ a.next + 60 + sz)
      × (e.rawfile + e.rawsize ≤ length a.rawfile)
      × (1 ≤ e.rawsize)
      × (b.nchildren ≡ a.nchildren + 1)
      × (b.next ≡ a.next)
open_member_inside a e b sz nsz h read named le =
    let o = open_member-Opened a e b h in
    let p = same_number (get_number (ar_size a.rawfile a.next) 10) o.sz sz o.size_field read in
    let q = same_size (bsd_name_size a.rawfile a.next) o.nsz nsz o.name_size named in
    let r = sub_size-le sz nsz le (get_number_bound (ar_size a.rawfile a.next) 10 sz read) in
    let positive = elf_memory-size _ (sub_size o.sz o.nsz) e.image o.image in
    let size : e.rawsize ≡ sz - nsz = o.size ∙ rw (p, q) r in
    (
      omega (arith, o.at, q),
      omega (arith, size, o.at, q),
      omega (arith, size, o.at, q, p, o.fits),
      omega (arith, positive, o.size),
      ap (λ (c : Archive). c.nchildren) o.counted,
      ap (λ (c : Archive). c.next) o.counted,
    )

-- In a file below 2 ^ 63 bytes, `elf_next` with a member just opened sets `e_next` to 0, or it
-- returns ELF_C_READ and sets `e_next` to an even offset inside the file, behind the header of the
-- member; whether or not the size of the member wrapped.
pub elf_next-open_member :
    (a : Archive) (e : Member) (b : Archive)
    → open_member a ≡ ok (some e, b)
    → length a.rawfile < 2 ^ 63
    → ((elf_next e b).1.next ≡ 0)
      ⊎ (((elf_next e b).1.next % 2 ≡ 0)
          × (a.next + 60 ≤ (elf_next e b).1.next)
          × ((elf_next e b).1.next < length a.rawfile)
          × ((elf_next e b).0 ≡ true))
unfolding elf_next next_offset
elf_next-open_member a e b h small =
    let o = open_member-Opened a e b h in
    let sz_fits = get_number_bound (ar_size a.rawfile a.next) 10 o.sz o.size_field in
    let nsz_fits = bsd_name_size_bound a.rawfile a.next o.nsz o.name_size in
    let sum =
      add-sub_size (a.next + 60) o.sz o.nsz (length a.rawfile + 1) sz_fits nsz_fits
        (omega (arith, o.fits)) (omega arith) in
    let end : (e.rawfile + e.rawsize) % 2 ^ 64 ≡ a.next + 60 + o.sz =
      omega (arith, sum, o.at, o.size) in
    let same : length b.rawfile ≡ length a.rawfile =
      ap (λ (c : Archive). length c.rawfile) o.counted in
    ground arith

-- e_next is zero only at the end of the archive, where no member is opened.
pub open_member-behind :
    (a : Archive) (e : Member) (b : Archive) → open_member a ≡ ok (some e, b) → 1 ≤ a.next
unfolding open_member
open_member-behind a e b h = elim (dec_lt 0 a.next) [ yes p ↦ p | no q ↦ ground arith ]

pub open_member-header :
    (a : Archive) (e : Member) (b : Archive)
    → open_member a ≡ ok (some e, b)
    → a.next + 60 ≤ length a.rawfile
open_member-header a e b h = let o = open_member-Opened a e b h in omega (arith, o.fits)

pub elf_next-rawfile :
    (a : Archive) (e : Member) (b : Archive)
    → open_member a ≡ ok (some e, b)
    → (elf_next e b).1.rawfile ≡ a.rawfile
unfolding elf_next
elf_next-rawfile a e b h = ap (λ (c : Archive). c.rawfile) (open_member-Opened a e b h).counted
