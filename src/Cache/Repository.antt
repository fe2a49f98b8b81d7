-- ===== src/Cache/Repository.antt =====
-- The methods of the generated cached_repository.go files: the body of those that answer an error
-- too, and the body of those that do not, which never write to the cache. The repository's own
-- state, which a call may change, is the parameter S.
use awslib.Cache.{HandlerInterface, DataCache, read, write}
use awslib.Cache.Reads.{IsFaithful, write_read}
use awslib.Errors.{Error}
use awslib.Gocollection.{Gocollection}
use awslib.Prelude.{ℕ, String, ◌≡◌, ◌≢◌, true, Option, none, some, [], All}

module _ {H D S : Type 0} (i : HandlerInterface H D) (g : Gocollection) where
  abbrev pub answered :
      DataCache H → ℕ → String → D → Option Error → S → (D × Option Error) × DataCache H × S
  answered c now cache_key r0 none s = ((r0, none), (write i g c now cache_key r0).1, s)
  answered c now cache_key r0 (some e) s = ((r0, some e), c, s)

  -- The answer of the method, with the error that the repository returned; `call` is the method of
  -- the wrapped repository. The cache is read at the instant `now` and written at the instant
  -- `then`, when the repository has answered.
  unfoldable pub cached_call :
      DataCache H
      → (now then : ℕ) → String
      → (S → (D × Option Error) × S)
      → S
      → (D × Option Error) × DataCache H × S
  cached_call c now then cache_key call s = elim (read i c now cache_key) [
    | some cached ↦ ((cached, none), c, s)
    | none ↦ let (r0, r1) = (call s).0 in answered c then cache_key r0 r1 (call s).1
  ]

  -- a method without an error
  unfoldable pub cached_call_without_error : DataCache H → ℕ → String → (S → D × S) → S → D × S
  cached_call_without_error c now cache_key call s = elim (read i c now cache_key) [
    | some cached ↦ (cached, s)
    | none ↦ call s
  ]

  -- A call that the cache does not answer, that succeeds and whose result every handler takes, is
  -- answered from the cache afterwards: as long as the handlers keep the value, the same call has
  -- the same answer, asks the wrapped repository nothing and changes neither it nor the cache.
  pub cached_call_again :
      (f : IsFaithful i) (c : DataCache H) (now then later after : ℕ) (cache_key : String)
      (call : S → (D × Option Error) × S) (s s' : S) (d : D)
      → c.handlers ≢ []
      → read i c now cache_key ≡ none
      → call s ≡ ((d, none), s')
      → (write i g c then cache_key d).0 ≡ none
      → All (λ h. f.lasts h then later d ≡ true) ((write i g c then cache_key d).1).handlers
      → (c' : DataCache H) × (cached_call c now then cache_key call s ≡ ((d, none), c', s'))
        × ((t : S) → cached_call c' later after cache_key call t ≡ ((d, none), c', t))
  unfolding cached_call
  cached_call_again f c now then later after cache_key call s s' d some_handler miss succeeds taken
        fresh =
      (
        (write i g c then cache_key d).1,
        rw (miss, succeeds, cached_call),
        λ t. rw (write_read i f g c then later cache_key d some_handler taken fresh, cached_call),
      )
