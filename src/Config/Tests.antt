-- ===== src/Config/Tests.antt =====
-- A local cache in a list, a table of one row, and the theorems about them.
use mathlib.Core.Option
use mathlib.Core.List.{not-mem-nil}
use go_notification.Prelude.{
  ℕ, zero, suc, ◌≤◌, length, ◌≡◌, refl, ◌∙◌, sym, ap, inl, inr, Bool, true, false, List, [], ◌∷◌,
  ◌++◌, map, take, drop, Option, none, some, ℤ, pos, pos_part, eqb_ℤ, eqb_ℤ→eq, find, assign,
  found-cases, if◌then◌else◌, arith,
}
use go_notification.Errs.{Result, ok, err, failure, ok_injective}
use go_notification.Domain.Tx.{BusinessConfig}
use go_notification.Config.Entities.{Row, to_domain, to_entity, to_domain-to_entity}
use go_notification.Config.Dao.{ConfigDao}
use go_notification.Config.Cache.{ConfigCache, Configs, config_key}
use go_notification.Config.Local.{
  GoCache, config, Published, set_event, handle_message, after_colon,
}
use go_notification.Config.Repository.{ConfigRepository, get_by_id, get_by_ids, load_cache}
use go_notification.Config.Coherence.{
  View, Cached, Coherent, Loses, Adds, IsHonest, Agrees, get_by_id-Agrees,
}
use go_notification.Config.Batches.{HasHonestBatches, get_by_ids-Cached}
use go_notification.Config.Preload.{Paged, PageOf, AllIn, load_cache-given}
use go_notification.Config.Watch.{zero_config, with_local, get_by_id-handle_message}

abbrev shop : BusinessConfig
shop = record zero_config { id = pos 7; owner_id = pos 3; rate_limit = pos 100 }

abbrev answer : Option BusinessConfig → Result BusinessConfig
answer none = err (failure 1)
answer (some c) = ok c

answer_ok : (o : Option BusinessConfig) (c : BusinessConfig) → answer o ≡ ok c → o ≡ some c
answer_ok none c h = cc
answer_ok (some d) c h = cc

-- the state is what the local cache holds
abbrev listed : ConfigCache Configs
listed = record {
  get = λ id s. (answer (find id s), s);
  set = λ c s. (ok tt, assign c.id c s);
  delete = λ id s. (ok tt, s);
  get_configs = λ ids s. (ok s, s);
  set_configs = λ cs s. (ok tt, s);
}

-- a cache that is down
abbrev broken {ℓ} : {S : Type ℓ} → ConfigCache S
broken = record {
  get = λ id s. (err (failure 2), s);
  set = λ c s. (err (failure 2), s);
  delete = λ id s. (err (failure 2), s);
  get_configs = λ ids s. (err (failure 2), s);
  set_configs = λ cs s. (err (failure 2), s);
}

abbrev row_of : ℤ → Result Row
row_of id = if eqb_ℤ (pos 7) id then ok (to_entity shop) else err (failure 3)

abbrev one_row {ℓ} : {S : Type ℓ} → ConfigDao S
one_row = record {
  get_by_ids = λ ids s. (ok ((pos 7, to_entity shop) ∷ []), s);
  get_by_id = λ id s. (row_of id, s);
  delete_by_id = λ id s. (ok tt, s);
  save_config = λ row s. (ok row, s);
  find_page = λ offset limit s.
      (ok (take (pos_part limit) (drop (pos_part offset) (to_entity shop ∷ []))), s);
}

abbrev shops : ConfigRepository Configs
shops = record { dao = one_row; local_cache = listed; redis_cache = broken }

abbrev seen : View Configs
seen = record {
  local = λ s id. find id s;
  redis = λ s id. none;
  table = λ s id. if eqb_ℤ (pos 7) id then some shop else none;
}

unchanged : (s : Configs) → Loses seen s s
unchanged s = record { cached_before = λ id c h. h; same_table = λ id. refl }

untouched : (c : BusinessConfig) (s : Configs) → Adds seen c s s
untouched c s = record { given_or_before = λ id d h. inr h; kept_table = λ id. refl }

assigned : (c : BusinessConfig) (s : Configs) → Adds seen c s (assign c.id c s)
unfolding find
assigned c s = record {
  given_or_before = λ id d h. elim h [
    | inl held ↦ elim (found-cases (eqb_ℤ c.id id) c d (find id s) held) [
      | inl (same, value) ↦ inl (eqb_ℤ→eq c.id id same, value)
      | inr (other, later) ↦ inr (inl later)
    ]
    | inr nothing ↦ inr (inr nothing)
  ];
  kept_table = λ id. refl;
}

by_test :
    (test : Bool) (row : Row)
    → (if test then ok (to_entity shop) else err (failure 3)) ≡ ok row
    → (if test then some shop else none) ≡ some (to_domain row)
by_test true row h =
    ap (λ c. some c) (sym (to_domain-to_entity shop))
    ∙ ap (λ r. some (to_domain r)) (ok_injective h)
by_test false row h = cc

shop_keyed :
    (id : ℤ) (c : BusinessConfig)
    → (if eqb_ℤ (pos 7) id then some shop else none) ≡ some c
    → c.id ≡ id
shop_keyed id c h = elim (found-cases (eqb_ℤ (pos 7) id) shop c none h) [
  | inl (same, value) ↦ ap (λ x. BusinessConfig.id x) (sym value) ∙ eqb_ℤ→eq (pos 7) id same
  | inr (other, later) ↦ cc
]

shops-IsHonest : IsHonest shops seen
shops-IsHonest = record {
  local-get = λ id s c h. answer_ok (find id s) c h;
  redis-get = λ id s c h. cc;
  dao-get = λ id s row h. by_test (eqb_ℤ (pos 7) id) row h;
  keyed = λ id s c h. shop_keyed id c h;
  local-get-Loses = λ id s. unchanged s;
  redis-get-Loses = λ id s. unchanged s;
  dao-get-Loses = λ id s. unchanged s;
  local-set-Adds = assigned;
  redis-set-Adds = λ c s. untouched c s;
}

shops-HasHonestBatches : HasHonestBatches shops seen
shops-HasHonestBatches = record {
  local-get_configs = λ ids s m id c got found. ap (λ t. find id t) (ok_injective got) ∙ found;
  redis-get_configs = λ ids s m id c got found. cc;
  local-get_configs-Loses = λ ids s. unchanged s;
}

nothing-Coherent : Coherent seen []
unfolding find
nothing-Coherent id c (inl h) = cc
nothing-Coherent id c (inr h) = cc

-- the table's row, through two caches that miss
get_by_id-Agrees_example : Agrees shops seen shops-IsHonest (pos 7) (get_by_id shops (pos 7) [])
get_by_id-Agrees_example = get_by_id-Agrees shops seen shops-IsHonest (pos 7) [] nothing-Coherent

get_by_ids-Cached_example : Cached seen (assign (pos 7) shop []) (pos 7) shop
unfolding get_by_ids find
get_by_ids-Cached_example =
    get_by_ids-Cached shops seen shops-HasHonestBatches (pos 7 ∷ []) (assign (pos 7) shop [])
      (assign (pos 7) shop []) (pos 7) shop refl refl

-- the state lists what the local cache was given
abbrev logged : ConfigRepository (List BusinessConfig)
logged = record {
  dao = one_row;
  local_cache = record broken { set_configs = λ cs s. (ok tt, s ++ cs) };
  redis_cache = broken;
}

abbrev all_given : List BusinessConfig → List BusinessConfig
all_given s = s

one_row-PageOf :
    (offset limit : ℕ)
    → offset ≤ 1
    → PageOf (to_entity shop ∷ []) offset limit (take limit (drop offset (to_entity shop ∷ [])))
one_row-PageOf zero zero h = (λ row m. absurd (not-mem-nil m), inl (refl, omega arith))
one_row-PageOf zero (suc zero) h = (λ row m. m, inl (refl, omega arith))
one_row-PageOf zero (suc (suc limit)) h = (λ row m. m, inr (omega arith, refl))
one_row-PageOf (suc zero) zero h = (λ row m. absurd (not-mem-nil m), inl (refl, omega arith))
one_row-PageOf (suc zero) (suc limit) h = (λ row m. absurd (not-mem-nil m), inr (omega arith, refl))
one_row-PageOf (suc (suc offset)) limit h = absurd (omega arith)

logged-Paged : Paged logged (to_entity shop ∷ []) all_given
logged-Paged = record {
  page = λ offset limit s inside.
      (take limit (drop offset (to_entity shop ∷ [])), refl, one_row-PageOf offset limit inside);
  page-given = λ offset limit s. refl;
  taken = λ cs s. refl;
  given-taken = λ cs s. refl;
}

load_cache-given_example :
    (s' : List BusinessConfig) × (rows : List Row) × (load_cache logged 1 [] ≡ some s')
    × (s' ≡ map to_domain rows)
    × AllIn (to_entity shop ∷ []) rows
    × (length rows ≡ 1)
load_cache-given_example =
    load_cache-given logged (to_entity shop ∷ []) all_given logged-Paged 1 [] (omega arith)
      (omega arith)

-- a cache that holds what it was given last, under every key
abbrev last_given : GoCache (Option BusinessConfig)
last_given = record {
  get = λ key s. (Option.map config s, s);
  set = λ key cfg s. some cfg;
  delete = λ key s. none;
}

abbrev silent : Published (Option BusinessConfig)
silent = record {
  get_text = λ key s. (err (failure 4), s);
  decode = λ text. (err (failure 5), zero_config);
}

abbrev lone : ConfigRepository (Option BusinessConfig)
lone = record { dao = one_row; local_cache = broken; redis_cache = broken }

get_by_id-handle_message_example :
    (get_by_id
      (with_local last_given silent lone)
      (pos 7)
      (handle_message last_given silent (b'_' ∷ b':' ∷ config_key (pos 7)) set_event none)).0
    ≡ ok zero_config
unfolding after_colon
get_by_id-handle_message_example =
    get_by_id-handle_message last_given silent lone (b'_' ∷ []) (pos 7) none (failure 4) refl refl
      refl (λ key cfg s. refl)
