-- ===== src/Server/AuthorityMain.antt =====
-- `main` of src/mock_authority/main.go up to the listening, and ReadPgpKeyFile of
-- src/distributepki/util/shared.go, which it calls. What is printed is left out.
use distribute_pki.Base.{
  ℕ, String, ◌≡◌, refl, ◌↔◌, Option, none, some, List, [], ◌∷◌, arith, nat_eq, string_eq, Result,
  ok, err, and_then,
}
use distribute_pki.Pbft.Json.{Text}
use distribute_pki.Pbft.Start.{trim_space}
use distribute_pki.Server.Authority.{AuthConfig, AuthorityLibrary, load_config}

module _ (auth : AuthorityLibrary) where
  pub record PgpFiles : Type 1 where
    -- *os.File, os.Open and openpgp.ReadArmoredKeyRing
    pub File : Type 0
    pub open_file : String → Result File
    pub read_armored_key_ring : File → Result (List auth.Entity)
    -- ioutil.ReadFile: the bytes are nil after an error
    pub read_text : String → Result Text
    -- entity.PrivateKey.Decrypt, with the entity that it leaves
    pub decrypt : auth.Entity → Text → Result (Unit {0}) × auth.Entity

  -- What http.ListenAndServe is called with, and the entity that the handler signs with.
  pub record Listening : Type 0 where
    pub this_entity : auth.Entity
    pub endpoint : String
    pub port : ℕ

  module _ (files : PgpFiles) where
    unfoldable pub read_pgp_key_file : String → List auth.Entity × Option String
    read_pgp_key_file path = elim (files.open_file path) [
      | err e ↦ ([], some e)
      | ok keyfile ↦ elim (files.read_armored_key_ring keyfile) [
        | err e ↦ ([], some e)
        | ok list ↦ (list, none)
      ]
    ]

    unfoldable pub read_passphrase : String → Text
    read_passphrase path = elim (files.read_text path) [
      | err e ↦ trim_space []
      | ok phrase ↦ trim_space phrase
    ]

    -- `main` once the configuration is read: `none` is the index of an empty list. An error is printed,
    -- and the rest is done all the same.
    unfoldable pub start_authority : AuthConfig → Option Listening
    start_authority config = elim (read_pgp_key_file config.secret_key).0 [
      | [] ↦ none
      | entity ∷ rest ↦ some (record {
        this_entity = (files.decrypt entity (read_passphrase config.secret)).1;
        endpoint = config.endpoint;
        port = config.port;
      })
    ]

    -- `main`: without a configuration it returns.
    unfoldable pub run_authority : Option (Option Listening)
    run_authority = elim (load_config auth "config.json") [
      | err e ↦ some none
      | ok config ↦ and_then (start_authority config) λ listening. some (some listening)
    ]

    run_authority-entities :
        (config : AuthConfig) (entities : List auth.Entity)
        → load_config auth "config.json" ≡ ok config
        → (read_pgp_key_file config.secret_key).0 ≡ entities
        → ((listening : Listening) × (run_authority ≡ some (some listening)))
          ↔ ((entity : auth.Entity) × (rest : List auth.Entity) × (entities ≡ entity ∷ rest))
    unfolding run_authority start_authority
    run_authority-entities config [] h e =
        ((λ l. ground (arith, h, e, l.1)), (λ x. ground (arith, x.2)))
    run_authority-entities config (entity ∷ rest) h e =
        let listening : Listening = record {
          this_entity = (files.decrypt entity (read_passphrase config.secret)).1;
          endpoint = config.endpoint;
          port = config.port;
        } in
        ((λ l. (entity, rest, refl)), (λ x. (listening, ground (arith, h, e))))

    -- The authority listens exactly if its configuration is read and its key file holds a key, whatever
    -- becomes of the passphrase.
    pub run_authority-listens :
        (config : AuthConfig)
        → load_config auth "config.json" ≡ ok config
        → ((listening : Listening) × (run_authority ≡ some (some listening))) ↔ (
            (entity : auth.Entity) × (rest : List auth.Entity) × ((read_pgp_key_file
                config.secret_key).0
              ≡ entity ∷ rest))
    run_authority-listens config h =
        run_authority-entities config (read_pgp_key_file config.secret_key).0 h refl

    -- An error in reading the key file ends the authority by a panic.
    pub run_authority-panics :
        (config : AuthConfig) (e : String)
        → load_config auth "config.json" ≡ ok config
        → (read_pgp_key_file config.secret_key).1 ≡ some e
        → run_authority ≡ none
    unfolding run_authority start_authority read_pgp_key_file
    run_authority-panics config e h f = ground (arith, h, f)
