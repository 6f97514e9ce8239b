-- ===== src/Mmap/Requests.antt =====
-- What `do_mmap` asks of a request before it hands it to `mmap_region`.
use so2_202110206_2svac.Common.{
  ℕ, ◌+◌, ◌-◌, ◌≤◌, ◌<◌, ◌≡◌, subst, true, false, Option, none, some, arith, ◌⊎◌, bit_and, bit_or,
}
use so2_202110206_2svac.Common.Result.{Result, ok, err, ◌>>=◌}
use so2_202110206_2svac.Common.Word.{word, page_size, page_shr, page_align, err_word, is_err_value}
use so2_202110206_2svac.Kernel.{Mm, enomem}
use so2_202110206_2svac.Mmap.{File, has, map_type, map_shared, map_shared_validate, prot_write}
use so2_202110206_2svac.Mmap.Map.{
  MapEnv, Region, private_file, shared_file, file_type, anonymous_type, checked_type, implied_prot,
  reserve_flags, place_mmap, permit_mmap, prepare_mmap, do_mmap,
}

-- What holds of a request that passes.
abbrev pub IfOk : Result Region → (Region → Type 0) → Type 0
IfOk (ok r) P = P r
IfOk (err e) P = Unit {0}

IfOk-ok : (P : Region → Type 0) (m : Result Region) {r : Region} → m ≡ ok r → IfOk m P → P r
IfOk-ok P (ok r) e h = subst P (ground arith) h
IfOk-ok P (err c) e h = absurd (ground arith)

-- The switch on the mapping type changes neither address nor length.
abbrev SamePlace : Region → Region → Type 0
SamePlace r r' = (r'.addr ≡ r.addr) × (r'.len ≡ r.len)

private_file-SamePlace : (file : File) (r : Region) → IfOk (private_file file r) (SamePlace r)
unfolding private_file
private_file-SamePlace file r = ground arith

shared_file-SamePlace :
    (file : File) (mask prot : ℕ) (r : Region) → IfOk (shared_file file mask prot r) (SamePlace r)
unfolding shared_file private_file
shared_file-SamePlace file mask prot r = ground arith

file_type-SamePlace :
    (k : MapEnv) (file : File) (prot : ℕ) (r : Region)
    → IfOk (file_type k file prot r) (SamePlace r)
unfolding file_type
file_type-SamePlace k file prot r = ground (
  arith,
  private_file-SamePlace file r,
  shared_file-SamePlace file mask prot r,
  shared_file-SamePlace file mask prot (record r { flags = bit_and r.flags k.legacy_map_mask }),
)
  where
    mask : ℕ
    mask = bit_or k.legacy_map_mask file.supported_flags

checked_type-SamePlace :
    (k : MapEnv) (file : Option File) (prot : ℕ) (r : Region)
    → IfOk (checked_type k file prot r) (SamePlace r)
unfolding checked_type anonymous_type
checked_type-SamePlace k none prot r = ground arith
checked_type-SamePlace k (some file) prot r = ground (arith, file_type-SamePlace k file prot r)

permit_mmap-SamePlace :
    (k : MapEnv) (mm : Mm) (file : Option File) (prot : ℕ) (r : Region)
    → IfOk (permit_mmap k mm file prot r) (SamePlace r)
unfolding permit_mmap reserve_flags
permit_mmap-SamePlace k mm file prot r = ground (arith, checked_type-SamePlace k file prot r)

-- A request for `mmap_region`: whole pages, at least one, at an address that is no error code, with
-- the offsets of all its pages below 2 ^ 64, and with room for one more area.
pub record Mappable (k : MapEnv) (mm : Mm) (len pgoff : ℕ) (r : Region) : Type 0 where
  pub whole_pages : r.len ≡ page_align len
  pub nonempty : 0 < r.len
  pub no_overflow : pgoff + page_shr r.len < word
  pub few_areas : mm.map_count ≤ k.sysctl_max_map_count
  pub placed : is_err_value r.addr ≡ false

module _ (k : MapEnv) (mm : Mm) (file : Option File) (addr len prot flags vm_flags pgoff : ℕ) where
  place_mmap-Mappable :
      pgoff < word
      → IfOk (place_mmap k mm file addr len prot flags vm_flags pgoff) (Mappable k mm len pgoff)
  unfolding place_mmap
  place_mmap-Mappable h = ground arith

  prepare_mmap-IfOk :
      pgoff < word
      → IfOk (prepare_mmap k mm file addr len prot flags vm_flags pgoff) (Mappable k mm len pgoff)
  unfolding prepare_mmap
  prepare_mmap-IfOk h =
      go (place_mmap k mm file addr len prot flags vm_flags pgoff) (place_mmap-Mappable h)
    where
      go :
          (m : Result Region)
          → IfOk m (Mappable k mm len pgoff)
          → IfOk (m >>= permit_mmap k mm file (implied_prot k file prot)) (Mappable k mm len pgoff)
      go (err e) q = tt
      go (ok r) q = ground (arith, permit_mmap-SamePlace k mm file (implied_prot k file prot) r)

  -- For an offset below 2 ^ 64, what `do_mmap` hands to `mmap_region` is a request for whole pages,
  -- those of the length rounded up and at least one, at an address that is no error code, whose
  -- page offsets, counted from the offset asked for, stay below 2 ^ 64, made while the process has
  -- no more areas than the system allows.
  pub prepare_mmap-Mappable :
      {r : Region}
      → pgoff < word
      → prepare_mmap k mm file addr len prot flags vm_flags pgoff ≡ ok r
      → Mappable k mm len pgoff r
  prepare_mmap-Mappable h e = IfOk-ok (Mappable k mm len pgoff) _ e (prepare_mmap-IfOk h)

  -- A length in the last page of the word rounds up to 0: `do_mmap` fails with -ENOMEM, and changes
  -- nothing.
  pub do_mmap-too_long :
      word - page_size < len
      → len < word
      → do_mmap k mm file addr len prot flags vm_flags pgoff ≡ (mm, err_word enomem, 0)
  unfolding do_mmap prepare_mmap place_mmap
  do_mmap-too_long h small = ground arith

-- The rights that a file grants to a mapping that may write through to it.
abbrev Grants : File → Type 0
Grants file =
    (file.readable ≡ true)
    × (file.has_mmap ≡ true)
    × (file.writable ≡ true)
    × (file.swapfile ≡ false)
    × (file.append_only ≡ false)

private_file-rights :
    (file : File) (r : Region)
    → IfOk (private_file file r) (λ _. (file.readable ≡ true) × (file.has_mmap ≡ true))
unfolding private_file
private_file-rights file r = ground arith

shared_file-rights :
    (file : File) (mask prot : ℕ) (r : Region)
    → has prot prot_write ≡ true
    → IfOk (shared_file file mask prot r) (λ _. Grants file)
unfolding shared_file private_file
shared_file-rights file mask prot r w = ground arith

IsShared : Region → Type 0
IsShared r =
    (bit_and r.flags map_type ≡ map_shared) ⊎ (bit_and r.flags map_type ≡ map_shared_validate)

permit_mmap-IfOk :
    (k : MapEnv) (mm : Mm) (file : File) (prot : ℕ) (r : Region)
    → IsShared r
    → has prot prot_write ≡ true
    → IfOk (permit_mmap k mm (some file) prot r) (λ _. Grants file)
unfolding permit_mmap checked_type file_type IsShared
permit_mmap-IfOk k mm file prot r sh w =
    let mask : ℕ = bit_or k.legacy_map_mask file.supported_flags in
    ground (
      arith,
      shared_file-rights file mask prot r w,
      shared_file-rights file mask prot (record r { flags = bit_and r.flags k.legacy_map_mask }) w,
    )

-- A mapping with MAP_SHARED or MAP_SHARED_VALIDATE and PROT_WRITE of a file passes the second part
-- of `do_mmap` only if the file is open for reading and writing, can be mapped, is no swap file and
-- is not append-only.
pub permit_mmap-Grants :
    (k : MapEnv) (mm : Mm) (file : File) (prot : ℕ) (r : Region) {r' : Region}
    → (bit_and r.flags map_type ≡ map_shared) ⊎ (bit_and r.flags map_type ≡ map_shared_validate)
    → has prot prot_write ≡ true
    → permit_mmap k mm (some file) prot r ≡ ok r'
    → (file.readable ≡ true)
      × (file.has_mmap ≡ true)
      × (file.writable ≡ true)
      × (file.swapfile ≡ false)
      × (file.append_only ≡ false)
unfolding IsShared
permit_mmap-Grants k mm file prot r sh w e =
    IfOk-ok (λ _. Grants file) _ e (permit_mmap-IfOk k mm file prot r sh w)
