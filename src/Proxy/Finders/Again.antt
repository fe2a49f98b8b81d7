-- ===== src/Proxy/Finders/Again.antt =====
-- A finder that is asked twice, with a cache.
use awslib.Cache.{HandlerInterface, DataCache, read, write, with_namespace}
use awslib.Cache.Key.Params.{key_at-none}
use awslib.Cache.Keys.{with_cache}
use awslib.Cache.Reads.{IsFaithful}
use awslib.Cache.Repository.{cached_call, cached_call_again}
use awslib.Gocollection.{Gocollection}
use awslib.Errors.{Error}
use awslib.Proxy.Finders.{Surroundings, kept, list_with, find}
use awslib.Service.Cfg.{Kind}
use awslib.Prelude.{
  String, ℕ, Option-cases, inl, inr, ◌≡◌, ◌≢◌, refl, sym, ◌∙◌, ap, true, Option, none, some, List,
  [], map, All,
}

cached_call-namespace :
    {H D S : Type 0} (i : HandlerInterface H D) (g : Gocollection) (c : DataCache H) (now then : ℕ)
    (cache_key : String) (call : S → (D × Option Error) × S) (s : S)
    → (cached_call i g c now then cache_key call s).1.namespace ≡ c.namespace
unfolding cached_call write
cached_call-namespace i g c now then cache_key call s =
    elim (Option-cases (read i c now cache_key)) [
      | inl miss ↦ elim (Option-cases ((call s).0).1) [
        | inl done ↦ rw (miss, done, cached_call) refl
        | inr (failed, err) ↦ rw (miss, err, cached_call) refl
      ]
      | inr (d, hit) ↦ rw (hit, cached_call) refl
    ]

abbrev placed : {H : Type 0} → List H → String → DataCache H
placed handlers namespace = record { namespace = namespace; handlers = handlers }

module _ {C W H R : Type 0} {Item : Kind → Type 0} (e : Surroundings C W H R Item) (k : Kind)
    (f : IsFaithful (e.handlers k)) (method : String)
    (list : W → (List (Item k) × Option Error) × W) (client : C) (dc : DataCache H) where
  -- the cache of the client's account and region
  abbrev pub scoped : DataCache H
  scoped = with_cache (e.account client) (e.region client) dc

  abbrev pub shown :
      (List (Item k) × Option Error) × Option (DataCache H) × W
      → (List R × Option Error) × Option (DataCache H) × W
  shown ((items, err), dc', w) = ((map (e.cast k) items, err), dc', w)

  -- the answer of the finder by the cached method, at a cache, a world, an instant and a key
  abbrev by_call : DataCache H → W → ℕ → String → (List R × Option Error) × Option (DataCache H) × W
  by_call c w then m =
      shown (kept e dc (cached_call (e.handlers k) e.collection c (e.clock w) then m list w))

  -- On a cache with a handler, whose handlers serve what was written to them, a finder without
  -- parameters that the cache does not answer, whose list method succeeds and whose result every
  -- handler takes, answers the same afterwards, from the cache: as long as the handlers keep the
  -- value, it asks the repository nothing.
  pub find_again :
      (w v w' : W) (items : List (Item k))
      → dc.handlers ≢ []
      → read (e.handlers k) scoped (e.clock w) method ≡ none
      → list w ≡ ((items, none), w')
      → (write (e.handlers k) e.collection scoped (e.clock w') method items).0 ≡ none
      → All
          (λ h. f.lasts h (e.clock w') (e.clock v) items ≡ true)
          ((write (e.handlers k) e.collection scoped (e.clock w') method items).1).handlers
      → (dc' : DataCache H) × (find e k method [] list client (some dc) w
          ≡ ((map (e.cast k) items, none), some dc', w'))
        × (find e k method [] list client (some dc') v
            ≡ ((map (e.cast k) items, none), some dc', v))
  unfolding find list_with with_cache with_namespace
  find_again w v w' items some_handler miss succeeds taken fresh =
      let (c, first, again) =
        cached_call_again (e.handlers k) e.collection f scoped (e.clock w) (e.clock w') (e.clock v)
          (e.clock (list v).1) method list w w' items some_handler miss succeeds taken fresh in
      (
        record { namespace = dc.namespace; handlers = c.handlers },
        ap (λ m. by_call scoped w (e.clock (list w).1) m)
              (key_at-none e.strconv (e.memory w) method)
            ∙ ap (λ a. by_call scoped w (e.clock a.1) method) succeeds
            ∙ ap (λ a. shown (kept e dc a)) first,
        ap (λ m. by_call (placed c.handlers scoped.namespace) v (e.clock (list v).1) m)
              (key_at-none e.strconv (e.memory v) method)
            ∙ ap (λ n. by_call (placed c.handlers n) v (e.clock (list v).1) method)
                (sym (
                    cached_call-namespace (e.handlers k) e.collection scoped (e.clock w)
                      (e.clock w') method list w)
                  ∙ ap (λ a. a.1.namespace) first)
            ∙ ap (λ a. shown (kept e dc a)) (again v),
      )
