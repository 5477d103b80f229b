-- ===== src/Dispatch/Pool.antt =====
-- `EndpointPool` of gateway/endpoints.py. `Settings` stands for the dict of an endpoint's config, `same`
-- for the equality of two dicts, and a serial number for the identity of a client.
use ctrl_gateway.Prelude.{
  ℕ, ◌+◌, ◌≡◌, refl, sym, ap, ◌∙◌, ◌⊎◌, inl, inr, String, Bool, true, false, Option, none, some,
  List, [], ◌∷◌, ◌++◌, arith, str_eq, eq_iff, Bool-cases, Option-cases, if◌then◌else◌, Some, here,
  there,
}
use ctrl_gateway.Prelude.Dict
use ctrl_gateway.Prelude.Dict.{Dict}
use ctrl_gateway.Firewall.{Enforcer}

module _ (Settings : Type 0) (name_of : Settings → String) (same : Settings → Settings → Bool) where
  pub record PoolClient : Type 0 where
    pub serial : ℕ
    pub cfg : Settings
    pub enforcer : Option Enforcer

  -- `_clients` and `_firewall`, with the next serial number and the clients that were closed.
  pub record Pool : Type 0 where
    pub clients : Dict PoolClient
    pub firewall : Option Enforcer
    pub next : ℕ
    pub closed_clients : List ℕ

  -- What the loop of `rebuild` has so far.
  pub record Building : Type 0 where
    pub new_clients : Dict PoolClient
    pub next_serial : ℕ
    pub closing : List ℕ

  -- `set_firewall` of a client
  abbrev pub with_firewall : Option Enforcer → PoolClient → PoolClient
  with_firewall fw c = record c { enforcer = fw }

  unfoldable pub set_firewall_all : Option Enforcer → Dict PoolClient → Dict PoolClient
  set_firewall_all fw [] = []
  set_firewall_all fw ((name, c) ∷ d) = (name, with_firewall fw c) ∷ set_firewall_all fw d

  -- `set_firewall` of the pool
  unfoldable pub set_firewall : Option Enforcer → Pool → Pool
  unfolding set_firewall_all
  set_firewall fw pool = record pool { clients = set_firewall_all fw pool.clients; firewall = fw }

  -- A new client at the name of the endpoint.
  unfoldable pub renew : Option Enforcer → Settings → List ℕ → Building → Building
  renew fw ep closing b = record {
    new_clients =
        Dict.insert (name_of ep) (record { serial = b.next_serial; cfg = ep; enforcer = fw })
          b.new_clients;
    next_serial = b.next_serial + 1;
    closing = b.closing ++ closing;
  }

  unfoldable pub rebuild_one : Option Enforcer → Settings → Option PoolClient → Building → Building
  unfolding renew
  rebuild_one fw ep none b = renew fw ep [] b
  rebuild_one fw ep (some existing) b =
      if same existing.cfg ep
      then record b {
        new_clients = Dict.insert (name_of ep) (with_firewall fw existing) b.new_clients;
      }
      else renew fw ep (existing.serial ∷ []) b

  -- The loop over the endpoints of the config.
  unfoldable pub rebuild_all : Pool → List Settings → Building → Building
  unfolding rebuild_one
  rebuild_all pool [] b = b
  rebuild_all pool (ep ∷ eps) b =
      rebuild_all pool eps (rebuild_one pool.firewall ep (Dict.lookup (name_of ep) pool.clients) b)

  -- The clients whose name is not in the new pool.
  unfoldable pub dropped : Dict PoolClient → Dict PoolClient → List ℕ
  dropped new [] = []
  dropped new ((name, c) ∷ old) = elim (Dict.lookup name new) [
    | none ↦ c.serial ∷ dropped new old
    | some kept ↦ dropped new old
  ]

  -- `rebuild`
  unfoldable pub rebuild : List Settings → Pool → Pool
  unfolding rebuild_all dropped
  rebuild eps pool =
      let b =
        rebuild_all pool eps (record { new_clients = []; next_serial = pool.next; closing = [] }) in
      record {
        clients = b.new_clients;
        firewall = pool.firewall;
        next = b.next_serial;
        closed_clients = pool.closed_clients ++ (b.closing ++ dropped b.new_clients pool.clients);
      }

  abbrev pub IsIn : ℕ → List ℕ → Type 0
  IsIn n ns = Some (λ m. m ≡ n) ns

  IsIn-left : (n : ℕ) (ms ns : List ℕ) → IsIn n ms → IsIn n (ms ++ ns)
  IsIn-left n (m ∷ ms) ns (here e) = here e
  IsIn-left n (m ∷ ms) ns (there s) = there (IsIn-left n ms ns s)
  IsIn-left n [] ns s = elim s [ ]

  IsIn-right : (n : ℕ) (ms ns : List ℕ) → IsIn n ns → IsIn n (ms ++ ns)
  IsIn-right n [] ns s = s
  IsIn-right n (m ∷ ms) ns s = there (IsIn-right n ms ns s)

  -- Every client is in the place of its endpoint's name.
  abbrev pub IsKeyed : Dict PoolClient → Type 0
  IsKeyed d = (k : String) (c : PoolClient) → Dict.lookup k d ≡ some c → name_of c.cfg ≡ k

  insert-IsKeyed :
      (ep : Settings) (c : PoolClient) (d : Dict PoolClient)
      → name_of c.cfg ≡ name_of ep
      → IsKeyed d
      → IsKeyed (Dict.insert (name_of ep) c d)
  insert-IsKeyed ep c d named keyed k c' h = elim (Bool-cases (str_eq (name_of ep) k)) [
    | inl e ↦
        let found : some c ≡ some c' = sym (Dict.lookup-insert_here (name_of ep) k c d e) ∙ h in
        let same_client : c ≡ c' = ground (arith, found) in
        ap (λ x. name_of x.cfg) (sym same_client) ∙ (named ∙ (eq_iff (name_of ep) k).0 e)
    | inr e ↦ keyed k c' (sym (Dict.lookup-insert_away (name_of ep) k c d e) ∙ h)
  ]

  rebuild_one-IsKeyed :
      (sound : (a b : Settings) → same a b ≡ true → a ≡ b) (fw : Option Enforcer) (ep : Settings)
      (o : Option PoolClient) (b : Building)
      → IsKeyed b.new_clients
      → IsKeyed (rebuild_one fw ep o b).new_clients
  unfolding rebuild_one renew
  rebuild_one-IsKeyed sound fw ep none b h = insert-IsKeyed ep _ b.new_clients refl h
  rebuild_one-IsKeyed sound fw ep (some c) b h = elim (Bool-cases (same c.cfg ep)) [
    | inl e ↦
        rw (e, rebuild_one)
          (insert-IsKeyed ep (with_firewall fw c) b.new_clients (ap name_of (sound c.cfg ep e)) h)
    | inr e ↦ rw (e, rebuild_one) (insert-IsKeyed ep _ b.new_clients refl h)
  ]

  rebuild_all-IsKeyed :
      (sound : (a b : Settings) → same a b ≡ true → a ≡ b) (pool : Pool) (eps : List Settings)
      (b : Building)
      → IsKeyed b.new_clients
      → IsKeyed (rebuild_all pool eps b).new_clients
  unfolding rebuild_all
  rebuild_all-IsKeyed sound pool [] b h = h
  rebuild_all-IsKeyed sound pool (ep ∷ eps) b h =
      rebuild_all-IsKeyed sound pool eps _
        (rebuild_one-IsKeyed sound pool.firewall ep (Dict.lookup (name_of ep) pool.clients) b h)

  -- The client is the one that stands at the name.
  abbrev pub StandsAt : String → PoolClient → Dict PoolClient → Type 0
  StandsAt k c d = (c' : PoolClient) × (Dict.lookup k d ≡ some c') × (c'.serial ≡ c.serial)

  -- What the loop has done with a client of the old pool: nothing yet, kept it, or closed it.
  abbrev Handled : String → PoolClient → Building → Type 0
  Handled k c b =
      (Dict.lookup k b.new_clients ≡ none) ⊎ (StandsAt k c b.new_clients ⊎ IsIn c.serial b.closing)

  -- An endpoint of another name.
  insert-Handled :
      (k name : String) (c v : PoolClient) (b : Building) (n : ℕ) (closing : List ℕ)
      → str_eq name k ≡ false
      → (IsIn c.serial b.closing → IsIn c.serial closing)
      → Handled k c b
      → Handled k c (record {
        new_clients = Dict.insert name v b.new_clients;
        next_serial = n;
        closing = closing;
      })
  insert-Handled k name c v b n closing e grows h =
      let kept : Dict.lookup k (Dict.insert name v b.new_clients) ≡ Dict.lookup k b.new_clients =
        Dict.lookup-insert_away name k v b.new_clients e in
      elim h [
        | inl none_yet ↦ inl (kept ∙ none_yet)
        | inr (inl (c', found, serial)) ↦ inr (inl (c', kept ∙ found, serial))
        | inr (inr closed) ↦ inr (inr (grows closed))
      ]

  -- The client's own endpoint.
  rebuild_one-own :
      (fw : Option Enforcer) (ep : Settings) (k : String) (c : PoolClient) (b : Building)
      → str_eq (name_of ep) k ≡ true
      → Handled k c (rebuild_one fw ep (some c) b)
  unfolding rebuild_one renew
  rebuild_one-own fw ep k c b e = elim (Bool-cases (same c.cfg ep)) [
    | inl y ↦
        rw (y, rebuild_one)
          (inr (
            inl (
              with_firewall fw c,
              Dict.lookup-insert_here (name_of ep) k (with_firewall fw c) b.new_clients e,
              refl,
            )))
    | inr n ↦
        rw (n, rebuild_one) (inr (inr (IsIn-right c.serial b.closing (c.serial ∷ []) (here refl))))
  ]

  rebuild_one-other :
      (fw : Option Enforcer) (ep : Settings) (o : Option PoolClient) (k : String) (c : PoolClient)
      (b : Building)
      → str_eq (name_of ep) k ≡ false
      → Handled k c b
      → Handled k c (rebuild_one fw ep o b)
  unfolding rebuild_one renew
  rebuild_one-other fw ep none k c b e h =
      insert-Handled k (name_of ep) c _ b (b.next_serial + 1) _ e (IsIn-left c.serial b.closing [])
        h
  rebuild_one-other fw ep (some c0) k c b e h = elim (Bool-cases (same c0.cfg ep)) [
    | inl y ↦
        rw (y, rebuild_one)
          (insert-Handled k (name_of ep) c (with_firewall fw c0) b b.next_serial b.closing e
            (λ s. s) h)
    | inr n ↦
        rw (n, rebuild_one)
          (insert-Handled k (name_of ep) c
            (record { serial = b.next_serial; cfg = ep; enforcer = fw }) b (b.next_serial + 1)
            (b.closing ++ c0.serial ∷ []) e (IsIn-left c.serial b.closing (c0.serial ∷ [])) h)
  ]

  rebuild_all-Handled :
      (pool : Pool) (eps : List Settings) (k : String) (c : PoolClient) (b : Building)
      → Dict.lookup k pool.clients ≡ some c
      → Handled k c b
      → Handled k c (rebuild_all pool eps b)
  unfolding rebuild_all
  rebuild_all-Handled pool [] k c b found h = h
  rebuild_all-Handled pool (ep ∷ eps) k c b found h =
      rebuild_all-Handled pool eps k c _ found (elim (Bool-cases (str_eq (name_of ep) k)) [
        | inl e ↦
            let own : Dict.lookup (name_of ep) pool.clients ≡ some c =
              ap (λ n. Dict.lookup n pool.clients) ((eq_iff (name_of ep) k).0 e) ∙ found in
            rw own (rebuild_one-own pool.firewall ep k c b e)
        | inr e ↦
            rebuild_one-other pool.firewall ep (Dict.lookup (name_of ep) pool.clients) k c b e h
      ])

  dropped-IsIn :
      (new old : Dict PoolClient) (k : String) (c : PoolClient)
      → Dict.lookup k old ≡ some c
      → Dict.lookup k new ≡ none
      → IsIn c.serial (dropped new old)
  unfolding dropped Dict.lookup
  dropped-IsIn new [] k c found gone = absurd (ground (arith, found))
  dropped-IsIn new ((name, d) ∷ old) k c found gone = elim (Bool-cases (str_eq name k)) [
    | inl e ↦
        let same_client : some d ≡ some c = rw (e, Dict.lookup) at found in
        let gone' : Dict.lookup name new ≡ none =
          ap (λ n. Dict.lookup n new) ((eq_iff name k).0 e) ∙ gone in
        let same' : d ≡ c = ground (arith, same_client) in
        rw (gone', dropped) (here (ap (λ (x : PoolClient). x.serial) same'))
    | inr e ↦
        let rest : IsIn c.serial (dropped new old) =
          dropped-IsIn new old k c (rw (e, Dict.lookup) at found) gone in
        elim (Option-cases (Dict.lookup name new)) [
          | inl o ↦ rw (o, dropped) (there rest)
          | inr (kept, o) ↦ rw (o, dropped) rest
        ]
  ]

  -- After a rebuild every client has the config of the name that it stands at, and each client of
  -- the pool before is still there under its name or has been closed.
  pub rebuild-IsKeyed :
      (eps : List Settings) (pool : Pool) (k : String) (c : PoolClient)
      → ((a b : Settings) → same a b ≡ true → a ≡ b)
      → Dict.lookup k pool.clients ≡ some c
      → IsKeyed (rebuild eps pool).clients
        × (StandsAt k c (rebuild eps pool).clients
            ⊎ IsIn c.serial (rebuild eps pool).closed_clients)
  unfolding rebuild
  rebuild-IsKeyed eps pool k c sound found =
      let start : Building = record { new_clients = []; next_serial = pool.next; closing = [] } in
      let b = rebuild_all pool eps start in
      let gone = dropped b.new_clients pool.clients in
      (
        rebuild_all-IsKeyed sound pool eps start
            (λ j c' h. absurd (unfold Dict.lookup in ground (arith, h))),
        elim (rebuild_all-Handled pool eps k c start found (inl (unfold Dict.lookup in refl))) [
          | inl none_left ↦ inr (
              IsIn-right c.serial pool.closed_clients (b.closing ++ gone) (
                IsIn-right c.serial b.closing gone
                  (dropped-IsIn b.new_clients pool.clients k c found none_left)))
          | inr (inl stands) ↦ inl stands
          | inr (inr closed) ↦ inr (
              IsIn-right c.serial pool.closed_clients (b.closing ++ gone)
                (IsIn-left c.serial b.closing gone closed))
        ],
      )
