-- ===== src/Acme/System/Keeps.antt =====
-- What every write keeps, every call keeps.
use vaul_tls.Db.Rows.{Db}
use vaul_tls.Acme.External.{External, Config, Env}
use vaul_tls.Acme.Transitions.{Write, Writes, done, and_then, sweep}
use vaul_tls.Acme.Transitions.Serves.{serve-Writes}
use vaul_tls.Acme.Admin.Keeps.{
  AdminKeeps, create-keeps, update-keeps, deactivate-keeps, purge-keeps, delete_order-keeps,
  revoke_order-keeps,
}
use vaul_tls.Acme.System.{
  Step, request_step, fairing_step, create_step, update_step, deactivate_step, purge_step,
  delete_order_step, revoke_order_step, certificates_step, delete_certs_step, delete_user_step,
  delete_ca_step,
}

module _ (x : External) (config : Config) where
  -- The ids that a call draws for a nonce: an environment satisfies `E` if a call draws it.
  abbrev pub Meets : (Env → Type 0) → {db db' : Db} → Step x config db db' → Type 0
  Meets E (request_step env request) = E env
  Meets E (fairing_step env) = E env
  Meets E (create_step now kid key auth req) = Unit
  Meets E (update_step id auth req) = Unit
  Meets E (deactivate_step id auth) = Unit
  Meets E (purge_step id auth) = Unit
  Meets E (delete_order_step id auth) = Unit
  Meets E (revoke_order_step publish now id auth) = Unit
  Meets E (certificates_step certs versions cas) = Unit
  Meets E (delete_certs_step s gone) = Unit
  Meets E (delete_user_step s id) = Unit
  Meets E (delete_ca_step s id) = Unit

module _ (x : External) (config : Config) (P : Db → Type 0) (admin : AdminKeeps P) where
  Writes-keeps :
      (env : Env)
      → ((db db' : Db) → Write x config env db db' → P db → P db')
      → {db db' : Db} → Writes x config env db db'
      → P db
      → P db'
  Writes-keeps env keep done h = h
  Writes-keeps env keep (and_then before w) h = keep _ _ w (Writes-keeps env keep before h)

  pub Step-keeps :
      (E : Env → Type 0)
      → ((env : Env) → E env → (db db' : Db) → Write x config env db db' → P db → P db')
      → {db db' : Db} (step : Step x config db db') → Meets x config E step
      → P db
      → P db'
  Step-keeps E keep {db = db} (request_step env request) e h =
      Writes-keeps env (keep env e) (serve-Writes x config env db request) h
  Step-keeps E keep (fairing_step env) e h = keep env e _ _ sweep h
  Step-keeps E keep {db = db} (create_step now kid key auth req) e h =
      create-keeps P admin config.acme_enabled db h now kid key auth req
  Step-keeps E keep {db = db} (update_step id auth req) e h =
      update-keeps P admin config.acme_enabled db h id auth req
  Step-keeps E keep {db = db} (deactivate_step id auth) e h =
      deactivate-keeps P admin config.acme_enabled db h id auth
  Step-keeps E keep {db = db} (purge_step id auth) e h =
      purge-keeps P admin config.acme_enabled db h id auth
  Step-keeps E keep {db = db} (delete_order_step id auth) e h =
      delete_order-keeps P admin config.acme_enabled db h id auth
  Step-keeps E keep {db = db} (revoke_order_step publish now id auth) e h =
      revoke_order-keeps P admin config.acme_enabled db h publish now id auth
  Step-keeps E keep {db = db} (certificates_step certs versions cas) e h =
      admin.certificates db h certs versions cas
  Step-keeps E keep (delete_certs_step s gone) e h = admin.delete_certs s h gone
  Step-keeps E keep (delete_user_step s id) e h = admin.delete_user s h id
  Step-keeps E keep (delete_ca_step s id) e h = admin.delete_ca s h id

-- An environment of any kind.
pub Any-Meets :
    (x : External) (config : Config) {db db' : Db} (step : Step x config db db')
    → Meets x config (λ _. Unit) step
Any-Meets x config (request_step env request) = tt
Any-Meets x config (fairing_step env) = tt
Any-Meets x config (create_step now kid key auth req) = tt
Any-Meets x config (update_step id auth req) = tt
Any-Meets x config (deactivate_step id auth) = tt
Any-Meets x config (purge_step id auth) = tt
Any-Meets x config (delete_order_step id auth) = tt
Any-Meets x config (revoke_order_step publish now id auth) = tt
Any-Meets x config (certificates_step certs versions cas) = tt
Any-Meets x config (delete_certs_step s gone) = tt
Any-Meets x config (delete_user_step s id) = tt
Any-Meets x config (delete_ca_step s id) = tt
