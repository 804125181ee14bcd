-- ===== src/Komodo/Invariant.antt =====
-- What holds of the page database between traps: every page in use belongs to an address space,
-- which counts its pages, and an address space that can still run has its root page table.
use serval_sosp.Base.{
  ℕ, ◌+◌, ◌≤◌, ◌<◌, ◌≡◌, ◌≢◌, ◌∙◌, ap, true, not, ◌&&◌, if◌then◌else◌, ◌==◌, update, arith,
  sum_below, sum_below-update, sum_below-cong, sum_below-zero, le-sum_below, sum_below-le,
  sum_below-zeros,
}
use serval_sosp.Komodo.State.{State, KomPagedbEntry, kom_secure_npages}

-- 1 if `e` is the entry of a page in use that belongs to the address space `a`.
abbrev pub owned : KomPagedbEntry → ℕ → ℕ
owned e a = if not (e.type == 0) && e.addrspace_page == a then 1 else 0

-- The number of pages in use that belong to `a`.
unfoldable pub pages_of : (ℕ → KomPagedbEntry) → ℕ → ℕ
pages_of db a = sum_below (λ q. owned (db q) a) kom_secure_npages

pub record Accounted (db : ℕ → KomPagedbEntry) (pages : ℕ → ℕ → ℕ) : Type 0 where
  pub owner_in :
      (p : ℕ) → p < kom_secure_npages → (db p).type ≢ 0 → (db p).addrspace_page < kom_secure_npages
  pub owner_typed :
      (p : ℕ) → p < kom_secure_npages → (db p).type ≢ 0 → (db ((db p).addrspace_page)).type ≡ 1
  pub own : (p : ℕ) → p < kom_secure_npages → (db p).type ≡ 1 → (db p).addrspace_page ≡ p
  pub counts : (p : ℕ) → p < kom_secure_npages → (db p).type ≡ 1 → pages p 1 ≡ pages_of db p
  pub root_in : (p : ℕ) → p < kom_secure_npages → (db p).type ≡ 1 → pages p 0 < kom_secure_npages
  pub root_typed :
      (p : ℕ) → p < kom_secure_npages → (db p).type ≡ 1 → pages p 2 ≢ 2 → (db (pages p 0)).type ≡ 3
  pub root_owned :
      (p : ℕ)
      → p < kom_secure_npages
      → (db p).type ≡ 1
      → pages p 2 ≢ 2
      → (db (pages p 0)).addrspace_page ≡ p

pub record IsValid (s : State) : Type 0 where
  pub accounted : Accounted s.pagedb s.secure_pages
  pub dispatcher_in : s.enclave_mode ≡ true → s.cur_dispatcher_pageno < kom_secure_npages
  pub dispatcher_typed : s.enclave_mode ≡ true → (s.pagedb s.cur_dispatcher_pageno).type ≡ 2

-- A count is no larger than the number of pages.
pub pages_of-le : (db : ℕ → KomPagedbEntry) (a : ℕ) → pages_of db a ≤ kom_secure_npages
unfolding pages_of
pages_of-le db a = sum_below-le (λ q. owned (db q) a) kom_secure_npages (λ i. ground arith)

-- A page that belongs to `a` is counted.
pub pages_of-pos :
    (db : ℕ → KomPagedbEntry) (p a : ℕ)
    → p < kom_secure_npages
    → (db p).type ≢ 0
    → (db p).addrspace_page ≡ a
    → 1 ≤ pages_of db a
unfolding pages_of
pages_of-pos db p a h n e = ground (arith, le-sum_below (λ q. owned (db q) a) kom_secure_npages p h)

-- A new entry changes the count by what it and the old one count for.
pub pages_of-update :
    (db : ℕ → KomPagedbEntry) (p : ℕ) (e : KomPagedbEntry) (a : ℕ)
    → p < kom_secure_npages
    → pages_of (update db p e) a + owned (db p) a ≡ pages_of db a + owned e a
unfolding pages_of
pages_of-update db p e a h =
    let f : ℕ → ℕ = λ q. owned (db q) a in
    ap (λ n. n + owned (db p) a)
      (sum_below-cong (λ q. owned (update db p e q) a) (update f p (owned e a)) kom_secure_npages
        (λ q _. ground arith))
    ∙ sum_below-update f kom_secure_npages p (owned e a) h

-- If `a` has one page, it is its only page.
pub pages_of-one :
    (db : ℕ → KomPagedbEntry) (p q a : ℕ)
    → p < kom_secure_npages
    → owned (db p) a ≡ 1
    → pages_of db a ≡ 1
    → q < kom_secure_npages
    → q ≢ p
    → owned (db q) a ≡ 0
unfolding pages_of
pages_of-one db p q a hp ep one hq ne =
    let f : ℕ → ℕ = λ r. owned (db r) a in
    let rest : sum_below (update f p 0) kom_secure_npages ≡ 0 =
      omega (arith, sum_below-update f kom_secure_npages p 0 hp) in
    ground (arith, sum_below-zero (update f p 0) kom_secure_npages q rest hq)

-- No page belongs to a page that is no address space.
pub pages_of-none :
    (db : ℕ → KomPagedbEntry) (a : ℕ)
    → ((q : ℕ) → q < kom_secure_npages → (db q).type ≢ 0 → (db q).addrspace_page ≢ a)
    → pages_of db a ≡ 0
unfolding pages_of
pages_of-none db a h =
    sum_below-zeros (λ q. owned (db q) a) kom_secure_npages (λ q l. ground (arith, h q l))

module _ (db : ℕ → KomPagedbEntry) (pages : ℕ → ℕ → ℕ) (v : Accounted db pages) where
  -- Writes that keep the first two words of every address space and revive no stopped one.
  pub Accounted-words :
      (pages' : ℕ → ℕ → ℕ)
      → ((p : ℕ) → p < kom_secure_npages → (db p).type ≡ 1 → pages' p 0 ≡ pages p 0)
      → ((p : ℕ) → p < kom_secure_npages → (db p).type ≡ 1 → pages' p 1 ≡ pages p 1)
      → ((p : ℕ) → p < kom_secure_npages → (db p).type ≡ 1 → pages' p 2 ≢ 2 → pages p 2 ≢ 2)
      → Accounted db pages'
  Accounted-words pages' e0 e1 e2 = record {
    owner_in = v.owner_in;
    owner_typed = v.owner_typed;
    own = v.own;
    counts = λ p h t. e1 p h t ∙ v.counts p h t;
    root_in = λ p h t. rw (e0 p h t) (v.root_in p h t);
    root_typed = λ p h t n. rw (e0 p h t) (v.root_typed p h t (e2 p h t n));
    root_owned = λ p h t n. rw (e0 p h t) (v.root_owned p h t (e2 p h t n));
  }
