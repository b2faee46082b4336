-- ===== src/Messaging/Mq/Binding.antt =====
-- The cache of the sockets that receive, in include/gagent/messaging/AclMQ.hpp.
use g_agent.Base.{
  ℕ, String, [], true, Option, none, some, ◌==◌, string_key, int_key, ==_refl, Map, lookup, insert,
  contains, is_some, or_else, lookup-insert_self, ℤ, ◌≡◌, refl, subst, Bool-cases, inl, inr,
}
use g_agent.Platform.Config.{Config}
use g_agent.Messaging.Mq.{
  Calls, PullCache, own_pull, bind_new, keep_bound, keep_new, get_cached, get, Found,
}

module _ {Z : Type 0} (c : Calls Z) where
  -- What is found is in the cache of this process.
  abbrev Kept : ℤ → String → Found c → Type 0
  Kept cur name (none, p, z) = Unit
  Kept cur name (some (sock, ep), p, z) =
      ((p.pid == cur) ≡ true)
      × (lookup name p.sockets ≡ some sock)
      × (lookup name p.endpoints ≡ some ep)

  keep_bound-Kept :
      (cur : ℤ) (name : String) (sock : ℕ) (p : PullCache) (b : Option String × Z)
      → (p.pid == cur) ≡ true
      → Kept cur name (keep_bound c name sock p b)
  keep_bound-Kept cur name sock p (none, z) h = tt
  keep_bound-Kept cur name sock p (some ep, z) h =
      (h, lookup-insert_self name sock p.sockets, lookup-insert_self name ep p.endpoints)

  keep_new-Kept :
      (cfg : Config) (cur : ℤ) (name : String) (p : PullCache) (o : Option ℕ × Z)
      → (p.pid == cur) ≡ true
      → Kept cur name (keep_new c cfg name p o)
  keep_new-Kept cfg cur name p (none, z) h = tt
  keep_new-Kept cfg cur name p (some sock, z) h =
      keep_bound-Kept cur name sock p (bind_new c cfg name sock z) h

  contains-lookup :
      (name : String) (m : Map String String)
      → contains name m ≡ true
      → lookup name m ≡ some (or_else (lookup name m) "")
  contains-lookup name m h = go (lookup name m) h
    where
      go : (o : Option String) → is_some o ≡ true → o ≡ some (or_else o "")
      go none h = cc
      go (some v) h = refl

  get_cached-Kept :
      (cfg : Config) (cur : ℤ) (name : String) (o : Option ℕ) (p : PullCache) (z : Z)
      → (p.pid == cur) ≡ true
      → lookup name p.sockets ≡ o
      → Kept cur name (get_cached c cfg name o p z)
  get_cached-Kept cfg cur name none p z h e = keep_new-Kept cfg cur name p (c.open_pull z) h
  get_cached-Kept cfg cur name (some sock) p z h e = elim (Bool-cases (contains name p.endpoints)) [
    | inl g ↦ rw g (h, e, contains-lookup name p.endpoints g)
    | inr g ↦
        let there : lookup name (insert name "" p.endpoints) ≡ some "" =
          lookup-insert_self name "" p.endpoints in
        rw g (h, e, rw there refl)
  ]

  get-Kept :
      (cfg : Config) (cur : ℤ) (name : String) (p : PullCache) (z : Z)
      → Kept cur name (get c cfg cur name p z)
  unfolding get own_pull
  get-Kept cfg cur name p z = elim (Bool-cases (p.pid == cur)) [
    | inl e ↦ rw e (get_cached-Kept cfg cur name (lookup name p.sockets) p z e refl)
    | inr e ↦ rw e (
        get_cached-Kept cfg cur name _ (record { sockets = []; endpoints = []; pid = cur }) _
          (==_refl cur) refl)
  ]

  -- A name is bound once: where `get` found a socket and an endpoint for it, `get` in the same process
  -- finds the same ones again, whatever ZeroMQ keeps by then, and changes neither that nor the cache.
  get-get :
      (cfg : Config) (cur : ℤ) (name : String) (p q : PullCache) (z after again : Z) (sock : ℕ)
      (ep : String)
      → get c cfg cur name p z ≡ (some (sock, ep), q, after)
      → get c cfg cur name q again ≡ (some (sock, ep), q, again)
  unfolding get own_pull
  get-get cfg cur name p q z after again sock ep h =
      let kept : Kept cur name (some (sock, ep), q, after) =
        subst (Kept cur name) h (get-Kept cfg cur name p z) in
      rw kept.0 (rw kept.1 (found kept.2))
    where
      found :
          lookup name q.endpoints ≡ some ep
          → get_cached c cfg name (some sock) q again ≡ (some (sock, ep), q, again)
      found e = rw e (rw e refl)
