-- ===== src/Komodo/Tables.antt =====
-- The entries of page tables: what an enclave can reach is its own.
use serval_sosp.Base.{
  ℕ, suc, ◌≤◌, ◌<◌, ◌≡◌, ◌≢◌, ◌⊎◌, inl, inr, ◌∙◌, ap, subst, if◌then◌else◌, ◌==◌,
}
use serval_sosp.Komodo.State.{
  Layout, KomPagedbEntry, kom_secure_npages, kom_insecure_npages, page_words, page_pfn,
  insecure_page_pfn, pfn_entry, enclave_prot,
}

-- The permissions that a table of the type `type` grants: those of a mapping in the last level.
abbrev pub prot_of : ℕ → ℕ → ℕ
prot_of type mapping = if type == 5 then enclave_prot mapping else 1

-- What the word `x` may be, in a page table of the type `type` of the address space `a`.
pub data Points (l : Layout) (db : ℕ → KomPagedbEntry) (type a x : ℕ) : Type 0 where
  absent : x ≡ 0 → Points l db type a x
  secure :
      (q mapping : ℕ)
      → q < kom_secure_npages
      → (db q).type ≡ suc type
      → (db q).addrspace_page ≡ a
      → x ≡ pfn_entry (page_pfn l q) (prot_of type mapping)
      → Points l db type a x
  insecure :
      (q mapping : ℕ)
      → q < kom_insecure_npages
      → type ≡ 5
      → x ≡ pfn_entry (insecure_page_pfn l q) (enclave_prot mapping)
      → Points l db type a x

-- Every page table of an address space that is not stopped points to pages of that address space,
-- of the next level, or, in the last level, to insecure pages.
unfoldable pub Confined : Layout → (ℕ → KomPagedbEntry) → (ℕ → ℕ → ℕ) → Type 0
Confined l db pages =
    (p w : ℕ)
    → p < kom_secure_npages
    → w < page_words
    → 3 ≤ (db p).type
    → (db p).type ≤ 5
    → pages ((db p).addrspace_page) 2 ≢ 2
    → Points l db ((db p).type) ((db p).addrspace_page) (pages p w)

module _ (l : Layout) where
  pub Points-mono :
      (db db' : ℕ → KomPagedbEntry) (type a x : ℕ)
      → ((q : ℕ)
          → q < kom_secure_npages
          → (db q).type ≡ suc type
          → (db q).addrspace_page ≡ a
          → db' q ≡ db q)
      → Points l db type a x
      → Points l db' type a x
  Points-mono db db' type a x same (absent e) = absent e
  Points-mono db db' type a x same (secure q m h t o e) =
      secure q m h (ap (λ (k : KomPagedbEntry). k.type) (same q h t o) ∙ t)
        (ap (λ (k : KomPagedbEntry). k.addrspace_page) (same q h t o) ∙ o) e
  Points-mono db db' type a x same (insecure q m h t e) = insecure q m h t e

  -- A word that is kept, or a new one that is right.
  pub Confined-frame :
      (db db' : ℕ → KomPagedbEntry) (pages pages' : ℕ → ℕ → ℕ)
      → Confined l db pages
      → ((p w : ℕ)
          → p < kom_secure_npages
          → w < page_words
          → 3 ≤ (db' p).type
          → (db' p).type ≤ 5
          → pages' ((db' p).addrspace_page) 2 ≢ 2
          → Points l db' ((db' p).type) ((db' p).addrspace_page) (pages' p w)
            ⊎ ((db' p ≡ db p)
                × (pages' p w ≡ pages p w)
                × (pages ((db p).addrspace_page) 2 ≢ 2)
                × ((q : ℕ)
                    → q < kom_secure_npages
                    → (db q).type ≡ suc (db p).type
                    → (db q).addrspace_page ≡ (db p).addrspace_page
                    → db' q ≡ db q)))
      → Confined l db' pages'
  unfolding Confined
  Confined-frame db db' pages pages' c step p w h k lo hi live = elim (step p w h k lo hi live) [
    | inl new ↦ new
    | inr (e, x, old, same) ↦ rw e (
        rw x (
          Points-mono db db' ((db p).type) ((db p).addrspace_page) (pages p w) same (
            c p w h k (subst (λ (y : KomPagedbEntry). 3 ≤ y.type) e lo)
              (subst (λ (y : KomPagedbEntry). y.type ≤ 5) e hi) old)))
  ]
