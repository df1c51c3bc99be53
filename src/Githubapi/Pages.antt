-- ===== src/Githubapi/Pages.antt =====
-- How many pages ListRepositories (backend/internal/githubapi/client.go) gets.
use gitactionflow.Base.{
  ℕ, zero, suc, ◌≤◌, ◌<◌, ◌≡◌, subst, inl, inr, List, [], ◌++◌, length, ltb, Bool-cases, arith,
}
use gitactionflow.Base.Text.{Text, Unicode}
use gitactionflow.Errors.{Result, ok, >>=-eq-ok, Result-cases}
use gitactionflow.Transport.{Transport}
use gitactionflow.Githubapi.Decode.{Repository, decode_repositories}
use gitactionflow.Githubapi.{get_json, page_path, list_pages, list_repositories}

module _ ⦃u : Unicode⦄ (base_url : Text) (transport : Transport) (token : Text) where
  -- What GitHub answers for a page.
  abbrev page_of : ℕ → Result (List Repository)
  page_of n = get_json base_url transport token (page_path base_url transport n) decode_repositories

  -- The list is that of the pages from `n` on, up to the first one that is not full, but of no more
  -- than `left` pages.
  pub data IsPaged : (left n : ℕ) → List Repository → Type 0 where
    capped : {n : ℕ} → IsPaged zero n []
    last :
        {left n : ℕ} {batch : List Repository}
        → page_of n ≡ ok batch
        → length batch < 100
        → IsPaged (suc left) n batch
    more :
        {left n : ℕ} {batch rest all : List Repository}
        → page_of n ≡ ok batch
        → 100 ≤ length batch
        → IsPaged left (suc n) rest
        → all ≡ batch ++ rest
        → IsPaged (suc left) n all

  list_pages-IsPaged :
      (left n : ℕ) {all : List Repository}
      → list_pages base_url transport token left n ≡ ok all
      → IsPaged left n all
  unfolding list_pages
  list_pages-IsPaged zero n {all} h = let same : [] ≡ all = cc in subst (IsPaged zero n) same capped
  list_pages-IsPaged (suc left) n {all} h = elim (Result-cases (page_of n)) [
    | inr (e, failed) ↦ absurd (let q = rw (list_pages, failed) at h in cc)
    | inl (batch, got) ↦
        let q = rw (list_pages, got) at h in
        elim (Bool-cases (ltb (length batch) 100)) [
          | inl short ↦
              let same : batch ≡ all = cc (rw short at q) in
              subst (IsPaged (suc left) n) same (last got (ground arith))
          | inr full ↦
              let (rest, listed, joined) =
                >>=-eq-ok (list_pages base_url transport token left (suc n))
                  (λ more. ok (batch ++ more)) (rw full at q) in
              more got (ground arith) (list_pages-IsPaged left (suc n) listed) (cc joined)
        ]
  ]

  -- ListRepositories returns the repositories of the first pages, in order: up to the first page that
  -- is not full, but of no more than five pages.
  pub list_repositories-IsPaged :
      {all : List Repository}
      → list_repositories base_url transport token ≡ ok all
      → IsPaged 5 1 all
  unfolding list_repositories
  list_repositories-IsPaged h = list_pages-IsPaged 5 1 h
