-- ===== src/Inode/Cache.antt =====
-- The open inodes are a cache of the disk's: each is in memory once, and counts its users.
use os_elephant.Base.{
  ◌⊎◌, ℕ, ◌+◌, ◌-◌, ◌%◌, ◌^◌, ◌<◌, ◌≡◌, ◌≢◌, refl, ap, ◌∙◌, true, false, not, ◌&&◌, List, [], ◌∷◌,
  ◌==◌, has, Distinct, Option, none, some, update, ok, arith, Bool-cases, inl, inr,
}
use os_elephant.Ide.{Disk, Buffer}
use os_elephant.Fs.{Partition, Inode}
use os_elephant.Inode.{
  u32, inode_load, OpenInodes, find_open, open_from, inode_open, unlinked, inode_close,
}

-- No node is in the list twice, no two open inodes have the same number, and each has users, fewer than a word counts.
pub record IsCache (s : OpenInodes) : Type 0 where
  pub distinct : Distinct s.open_inodes
  pub one :
      (p q : ℕ)
      → has p s.open_inodes ≡ true
      → has q s.open_inodes ≡ true
      → (s.inodes p).inode_id ≡ (s.inodes q).inode_id
      → p ≡ q
  pub used :
      (p : ℕ)
      → has p s.open_inodes ≡ true
      → (0 < (s.inodes p).inode_open_count) × ((s.inodes p).inode_open_count < 2 ^ 32)

-- What the search of the list answers.
abbrev Found : (ℕ → Inode) → List ℕ → ℕ → Option ℕ → Type 0
Found inodes xs id none = (p : ℕ) → has p xs ≡ true → (inodes p).inode_id ≢ id
Found inodes xs id (some p) = (has p xs ≡ true) × ((inodes p).inode_id ≡ id)

find_open-cons :
    (inodes : ℕ → Inode) (x : ℕ) (xs : List ℕ) (id : ℕ) (o : Option ℕ)
    → (inodes x).inode_id ≢ id
    → Found inodes xs id o
    → Found inodes (x ∷ xs) id o
find_open-cons inodes x xs id none ne f = λ p h e. elim (Bool-cases (x == p)) [
  | inl here ↦ ne (ap (λ q. (inodes q).inode_id) (ground arith) ∙ e)
  | inr there ↦ f p (ground arith) e
]
find_open-cons inodes x xs id (some p) ne f = (ground (arith, f.0), f.1)

find_open-Found :
    (inodes : ℕ → Inode) (xs : List ℕ) (id : ℕ) → Found inodes xs id (find_open inodes xs id)
unfolding find_open
find_open-Found inodes [] id = λ p h. cc
find_open-Found inodes (x ∷ xs) id = elim (Bool-cases ((inodes x).inode_id == id)) [
  | inl mine ↦ rw mine (ground arith, ground arith)
  | inr other ↦ rw other (
      find_open-cons inodes x xs id (find_open inodes xs id) (ground arith)
        (find_open-Found inodes xs id))
]

unlinked-has :
    (p : ℕ) (xs : List ℕ) (q : ℕ) → Distinct xs → has q (unlinked p xs) ≡ (has q xs && not (q == p))
unfolding unlinked
unlinked-has p [] q d = refl
unlinked-has p (x ∷ xs) q d = ground (arith, unlinked-has p xs q d.1, d.0)

unlinked-Distinct : (p : ℕ) (xs : List ℕ) → Distinct xs → Distinct (unlinked p xs)
unfolding unlinked
unlinked-Distinct p [] d = tt
unlinked-Distinct p (x ∷ xs) d = elim (Bool-cases (x == p)) [
  | inl here ↦ rw here d.1
  | inr there ↦ rw there (ground (arith, unlinked-has p xs x d.1, d.0), unlinked-Distinct p xs d.1)
]

-- What one more open leaves: the inode is in the cache at `p`, and the close of it puts the cache back.
pub record Opened (s : OpenInodes) (id new p : ℕ) (after : OpenInodes) : Type 0 where
  pub cache : IsCache after
  pub opened : has p after.open_inodes ≡ true
  pub which : (p ≡ new) ⊎ (has p s.open_inodes ≡ true)
  pub number : (after.inodes p).inode_id ≡ id
  pub list_back : (inode_close p after).open_inodes ≡ s.open_inodes
  pub inodes_back :
      (q : ℕ) → has q s.open_inodes ≡ true → (inode_close p after).inodes q ≡ s.inodes q

-- The inode is open already: only its count changes.
shared :
    (s : OpenInodes) (id new p : ℕ)
    → IsCache s
    → has p s.open_inodes ≡ true
    → (s.inodes p).inode_id ≡ id
    → (s.inodes p).inode_open_count + 1 < 2 ^ 32
    → Opened s id new p (record s {
      inodes =
          update s.inodes p
            (record (s.inodes p) { inode_open_count = u32 ((s.inodes p).inode_open_count + 1) });
    })
unfolding inode_close
shared s id new p c h e room =
    let up : ((s.inodes p).inode_open_count + 1) % 2 ^ 32 ≡ (s.inodes p).inode_open_count + 1 =
      omega arith in
    let down : ((s.inodes p).inode_open_count + 1 + 2 ^ 32 - 1) % 2 ^ 32
        ≡ (s.inodes p).inode_open_count =
      omega arith in
    let self : (p == p) ≡ true = ground arith in
    let some_user : ((s.inodes p).inode_open_count == 0) ≡ false = ground (arith, c.used p h) in
    record {
      cache = record {
        distinct = c.distinct;
        one = λ q r hq hr same. c.one q r hq hr (ground arith);
        used = λ q hq. ground (arith, c.used q hq, up);
      };
      opened = h;
      which = inr h;
      number = ground arith;
      list_back = rw (self, up, down, some_user) refl;
      inodes_back = λ q hq. rw (self, up, down, some_user) (ground arith);
    }

-- The inode is read from the disk.
fresh :
    (s : OpenInodes) (id new : ℕ) (inode : Inode)
    → IsCache s
    → has new s.open_inodes ≡ false
    → Found s.inodes s.open_inodes id none
    → inode.inode_id ≡ id
    → Opened s id new new (record {
      inodes = update s.inodes new (record inode { inode_open_count = 1 });
      open_inodes = new ∷ s.open_inodes;
    })
unfolding inode_close unlinked
fresh s id new inode c absent f e =
    let self : (new == new) ≡ true = ground arith in
    record {
      cache = record {
        distinct = (absent, c.distinct);
        one = λ q r hq hr same. ground (arith, c.one q r, f q, f r, absent, e);
        used = λ q hq. ground (arith, c.used q, absent);
      };
      opened = ground arith;
      which = inl refl;
      number = rw self e;
      list_back = rw self refl;
      inodes_back = λ q hq. rw self (ground arith);
    }

-- By what the search found.
opened :
    (part : Partition) (id new : ℕ) (junk : Buffer) (d : Disk) (s : OpenInodes) (inode : Inode)
    (o : Option ℕ)
    → Found s.inodes s.open_inodes id o
    → IsCache s
    → ((p : ℕ) → has p s.open_inodes ≡ true → (s.inodes p).inode_open_count + 1 < 2 ^ 32)
    → has new s.open_inodes ≡ false
    → inode_load part id junk d ≡ ok inode
    → inode.inode_id ≡ id
    → (p : ℕ) × (after : OpenInodes) × (open_from part id new junk d s o ≡ ok (p, after))
      × Opened s id new p after
unfolding open_from
opened part id new junk d s inode (some p) f c room absent load e =
    (p, _, refl, shared s id new p c f.0 f.1 (room p f.0))
opened part id new junk d s inode none f c room absent load e =
    (new, _, rw load refl, fresh s id new inode c absent f e)

-- In a cache whose counts have room, with an unused address for a new inode and a disk that holds
-- the inode under its number, `inode_open` returns an open inode of that number, and the cache
-- still has each inode once; `inode_close` of it then puts the list and every inode that was open
-- before back as they were.
pub inode_open-Opened :
    (part : Partition) (id new : ℕ) (junk : Buffer) (d : Disk) (s : OpenInodes) (inode : Inode)
    → IsCache s
    → ((p : ℕ) → has p s.open_inodes ≡ true → (s.inodes p).inode_open_count + 1 < 2 ^ 32)
    → has new s.open_inodes ≡ false
    → inode_load part id junk d ≡ ok inode
    → inode.inode_id ≡ id
    → (p : ℕ) × (after : OpenInodes) × (inode_open part id new junk d s ≡ ok (p, after))
      × Opened s id new p after
unfolding inode_open
inode_open-Opened part id new junk d s inode c =
    opened part id new junk d s inode (find_open s.inodes s.open_inodes id)
      (find_open-Found s.inodes s.open_inodes id) c

-- `inode_close` of an open inode keeps the cache: an inode with other users stays in the list, and
-- one without leaves it, and each inode is still there once.
pub inode_close-IsCache :
    (s : OpenInodes) (p : ℕ)
    → IsCache s
    → has p s.open_inodes ≡ true
    → IsCache (inode_close p s)
      × ((q : ℕ)
          → has q (inode_close p s).open_inodes
            ≡ (has q s.open_inodes && not ((q == p) && ((s.inodes p).inode_open_count == 1))))
unfolding inode_close
inode_close-IsCache s p c h =
    let down : ((s.inodes p).inode_open_count + 2 ^ 32 - 1) % 2 ^ 32
        ≡ (s.inodes p).inode_open_count - 1 =
      ground (arith, c.used p h) in
    elim (Bool-cases ((s.inodes p).inode_open_count - 1 == 0)) [
      | inl last ↦
          rw (down, last)
            (
              record {
                distinct = unlinked-Distinct p s.open_inodes c.distinct;
                one = λ q r hq hr same. ground (
                  arith,
                  c.one q r,
                  unlinked-has p s.open_inodes q c.distinct,
                  unlinked-has p s.open_inodes r c.distinct,
                );
                used = λ q hq. ground (arith, c.used q, unlinked-has p s.open_inodes q c.distinct);
              },
              λ q. ground (arith, unlinked-has p s.open_inodes q c.distinct, c.used p h),
            )
      | inr more ↦
          rw (down, more)
            (
              record {
                distinct = c.distinct;
                one = λ q r hq hr same. c.one q r hq hr (ground arith);
                used = λ q hq. ground (arith, c.used q);
              },
              λ q. ground (arith, c.used p h),
            )
    ]
