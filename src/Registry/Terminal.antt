-- ===== src/Registry/Terminal.antt =====
-- A redaction is terminal: no batch of writes brings a redacted item back.
use agentic_kgis.Prelude.{
  Bool, true, false, ◌≡◌, refl, sym, ◌∙◌, subst, ◌⊎◌, inl, inr, List, [], ◌∷◌, Text, text_eq,
  text_beq, text_beq_iff, arith, Bool-cases,
}
use agentic_kgis.Database.{
  Result, ok, err, World, Env, Action, ◌>>=◌, tick, statement, commit_registry, on_error,
}
use agentic_kgis.Database.Transactions.{IsPreorder, Along, along_rules}
use agentic_kgis.Evidence.{Evidence}
use agentic_kgis.Tables.{EvidenceRow, RegistryTables}
use agentic_kgis.Ledger.Commit.{IsClean}
use agentic_kgis.Registry.{
  find_item, is_redacted, replace_item, on_items, put_statement, put_loop, put_many,
  registry_transaction,
}
use agentic_kgis.Registry.Redaction.{text_beq-other}
use agentic_kgis.Registry.Stages.{put_loop-Uncommitted}

-- `u` holds a redacted item under `id`, and `v` holds the very same one.
abbrev pub Keeps : Text → RegistryTables → RegistryTables → Type 0
Keeps id u v = (is_redacted id v.items ≡ true) × (find_item id v.items ≡ find_item id u.items)

-- A step that does not touch a redacted item.
pub record KeepsRedacted (id : Text) (u v : World) : Type 0 where
  pub keeps : is_redacted id u.registry.items ≡ true → Keeps id u.registry v.registry

KeepsRedacted-IsPreorder : (id : Text) → IsPreorder (KeepsRedacted id)
KeepsRedacted-IsPreorder id = record {
  stay = λ w. record { keeps = λ h. (h, refl) };
  chain = λ u v w p q. record {
    keeps = λ h. (let (a, b) = p.keeps h in let (c, d) = q.keeps a in (c, d ∙ b));
  };
  ticked = λ w. record { keeps = λ h. (h, refl) };
}

find_item-replace :
    (id : Text) (e : Evidence) (rows : List EvidenceRow)
    → text_beq e.evidence_id id ≡ false
    → is_redacted id rows ≡ true
    → find_item id (replace_item e rows) ≡ find_item id rows
find_item-replace id e [] d h = cc h
find_item-replace id e (x ∷ xs) d h =
    ground
      (arith, find_item-replace id e xs, text_beq-other x.evidence.evidence_id e.evidence_id id)

is_redacted-replace :
    (id : Text) (e : Evidence) (rows : List EvidenceRow)
    → text_beq e.evidence_id id ≡ false
    → is_redacted id rows ≡ true
    → is_redacted id (replace_item e rows) ≡ true
is_redacted-replace id e [] d h = cc h
is_redacted-replace id e (x ∷ xs) d h = ground (
  arith,
  is_redacted-replace id e xs,
  text_beq-other x.evidence.evidence_id id e.evidence_id,
  text_beq-other x.evidence.evidence_id e.evidence_id id,
)

same_id :
    (a b : Text) (rows : List EvidenceRow)
    → is_redacted a rows ≡ false
    → is_redacted b rows ≡ true
    → text_beq a b ≡ false
same_id a b rows h g = elim (Bool-cases (text_beq a b)) [
  | inl same ↦ cc (g, subst (λ t. is_redacted t rows ≡ false) ((text_beq_iff a b).0 same) h)
  | inr differ ↦ differ
]

written :
    (env : Env) (id : Text) (e : Evidence) (w : World) (b : Bool)
    → env.fault (tick w).ticks ≡ b
    → is_redacted e.evidence_id w.registry.items ≡ false
    → KeepsRedacted id w (statement env (λ _. tt {0}) (on_items (replace_item e)) (tick w)).1
unfolding statement
written env id e w true f n = rw f (record { keeps = λ h. (h, refl) })
written env id e w false f n = rw f (record {
  keeps = λ h.
      (let d = same_id e.evidence_id id w.registry.items n h in
        (
          is_redacted-replace id e w.registry.items d h,
          find_item-replace id e w.registry.items d h,
        ));
})

put_statement-Keeps :
    (env : Env) (id : Text) (e : Evidence) → Along (KeepsRedacted id) (put_statement env e)
unfolding put_statement ◌>>=◌ statement
put_statement-Keeps env id e = record {
  at = λ w. read w (env.fault w.ticks) (is_redacted e.evidence_id w.registry.items) refl refl;
}
  where
    read :
        (w : World) (b c : Bool)
        → env.fault w.ticks ≡ b
        → is_redacted e.evidence_id w.registry.items ≡ c
        → KeepsRedacted id w (put_statement env e w).1
    read w true c f n = rw f (record { keeps = λ h. (h, refl) })
    read w false true f n = rw (f, n) (record { keeps = λ h. (h, refl) })
    read w false false f n = rw (f, n) (written env id e w (env.fault (tick w).ticks) refl n)

put_loop-Keeps :
    (env : Env) (id : Text) (es : List Evidence) → Along (KeepsRedacted id) (put_loop env es)
unfolding put_loop
put_loop-Keeps env id [] = search (along_rules, KeepsRedacted-IsPreorder)
put_loop-Keeps env id (e ∷ es) =
    search (
      along_rules,
      KeepsRedacted-IsPreorder,
      put_statement-Keeps env id e,
      put_loop-Keeps env id es,
    )

-- how a registry transaction can end: with what the body left, or with what was committed before
abbrev Ends : World → RegistryTables → Type 0
Ends v r = (r ≡ v.registry) ⊎ (r ≡ v.saved_registry)

abbrev Ended : World → World → Type 0
Ended v w' = Ends v w'.registry × Ends v w'.saved_registry

const-Ends :
    {A : Type 0} (env : Env) (r : Result A) (v w : World) (b : Bool)
    → env.fault v.ticks ≡ b
    → Ended v (registry_transaction env (λ _. (r, v)) w).1
unfolding registry_transaction on_error ◌>>=◌ commit_registry statement
const-Ends env (err e) v w b f = (inr refl, inr refl)
const-Ends env (ok a) v w true f = rw f (inl refl, inr refl)
const-Ends env (ok a) v w false f = rw f (inl refl, inl refl)

registry_transaction-Ends :
    {A : Type 0} (env : Env) (body : Action A) (w : World)
    → Ended (body w).1 (registry_transaction env body w).1
unfolding registry_transaction on_error ◌>>=◌
registry_transaction-Ends env body w =
    const-Ends env (body w).0 (body w).1 w (env.fault (body w).1.ticks) refl

-- Whatever a batch of writes holds and whatever faults, an item that is redacted before `put_many`
-- is redacted after it and is the very same item, in the tables that the connection sees and in
-- the committed ones, if nothing was pending before.
pub put_many-Keeps :
    (env : Env) (id : Text) (es : List Evidence) (w : World)
    → IsClean w
    → is_redacted id w.registry.items ≡ true
    → let w' = (put_many env es w).1 in
      Keeps id w.registry w'.registry × Keeps id w.registry w'.saved_registry
unfolding put_many
put_many-Keeps env id es w c h = (whole _ ends.0, whole _ ends.1)
  where
    ends : Ended (put_loop env es w).1 (registry_transaction env (put_loop env es) w).1
    ends = registry_transaction-Ends env (put_loop env es) w

    whole : (r : RegistryTables) → Ends (put_loop env es w).1 r → Keeps id w.registry r
    whole r (inl e) =
        subst (λ t. Keeps id w.registry t) (sym e) (((put_loop-Keeps env id es).at w).keeps h)
    whole r (inr e) =
        subst (λ t. Keeps id w.registry t)
          (c.registry ∙ sym (((put_loop-Uncommitted env es).at w).saved_registry) ∙ sym e) (h, refl)
