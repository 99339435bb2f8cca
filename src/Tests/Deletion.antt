-- ===== src/Tests/Deletion.antt =====
-- A deletion at concrete data.
use counselready.Common.{All, ◌∷◌, ◌≡◌, refl, some, none, [], ◌∷◌, true, false}
use counselready.Common.Equality.{◌==◌, nat_eq, list_eq, ℕ_discrete}
use counselready.Common.Table.{any_row}
use counselready.Models.Cases.{CaseAuditEvent, case_read}
use counselready.Models.Database.{Database}
use counselready.Models.Cascade.{ForeignKeys, delete_user, refers}
use counselready.Models.Cascade.References.{delete_user-ForeignKeys}
use counselready.Models.Cascade.Erasure.{names, delete_user_erases}
use counselready.Models.Cascade.Others.{distinct}
use counselready.Api.Cases.{list_cases, read_case, list_documents, read_document}
use counselready.Api.Deletion.{DeleteAccountRequest, delete_own_account}
use counselready.Api.Deletion.Guards.{Deletes, delete_own_account-Deletes}
use counselready.Api.Deletion.Others.{delete_user_unseen}
use counselready.Tests.World.{toy, alice, password}
use counselready.Tests.Cases.{calls, int_of, open_pdf, nothing_stored, bob, filed_twice}
use counselready.Api.Chronicle.{serve_all}
use counselready.Api.Chronicle.Keys.{IsKnown}
use counselready.Api.Chronicle.Integrity.{serve_all-ForeignKeys}

abbrev seen : CaseAuditEvent
seen = record { actor_user_id = some 7; case_id = some 5; action = case_read; detail = none }

abbrev two_accounts : Database
two_accounts = record filed_twice { user_account = alice ∷ bob ∷ []; case_audit_event = seen ∷ [] }

keys_hold : ForeignKeys two_accounts
unfolding refers any_row ℕ_discrete
keys_hold = (
  refl, refl, refl, refl, refl, refl, refl, refl, refl, refl, refl, refl, refl, refl, refl, refl,
  refl, refl, refl, refl, refl, refl, refl,
)

delete_user-ForeignKeys_example : ForeignKeys (delete_user 7 two_accounts)
delete_user-ForeignKeys_example = delete_user-ForeignKeys 7 two_accounts keys_hold

delete_user_erases_example :
    let db' = delete_user 7 two_accounts in
    (any_row (λ u. u.id == 7) db'.user_account ≡ false)
    × (any_row (λ s. names 7 (some s.user_id)) db'.user_session ≡ false)
    × (any_row (λ e. names 7 e.user_id) db'.auth_event ≡ false)
    × (any_row (λ m. names 7 (some m.user_id)) db'.user_mfa ≡ false)
    × (any_row (λ r. names 7 (some r.user_id)) db'.recovery_code ≡ false)
    × (any_row (λ p. names 7 (some p.user_id)) db'.passkey ≡ false)
    × (any_row (λ p. names 7 p.user_id) db'.passkey_challenge ≡ false)
    × (any_row (λ c. names 7 (some c.owner_id)) db'.legal_case ≡ false)
    × (any_row (λ e. names 7 e.actor_user_id) db'.case_audit_event ≡ false)
    × (any_row (λ e. names 7 e.recorded_by_user_id) db'.case_event ≡ false)
    × (any_row (λ n. names 7 (some n.author_user_id)) db'.case_event_note ≡ false)
delete_user_erases_example = delete_user_erases 7 two_accounts keys_hold

apart : (bob.id == 7) ≡ false
unfolding ℕ_discrete
apart = refl

one_id_each : distinct (λ c. c.id) two_accounts.legal_case ≡ true
unfolding distinct any_row ℕ_discrete
one_id_each = refl

one_id_each_document : distinct (λ d. d.id) two_accounts.document ≡ true
unfolding distinct any_row ℕ_discrete
one_id_each_document = refl

one_id_each_page : distinct (λ p. p.id) two_accounts.document_page ≡ true
unfolding distinct any_row ℕ_discrete
one_id_each_page = refl

delete_user_unseen_example :
    let db' = delete_user 7 two_accounts in
    ((list_cases bob two_accounts).0 ≡ (list_cases bob db').0)
    × ((read_case 6 bob two_accounts).0 ≡ (read_case 6 bob db').0)
    × ((list_documents 6 bob two_accounts).0 ≡ (list_documents 6 bob db').0)
    × ((read_document 41 6 bob two_accounts).0 ≡ (read_document 41 6 bob db').0)
delete_user_unseen_example =
    delete_user_unseen bob 7 two_accounts 6 41 apart one_id_each one_id_each_document
      one_id_each_page

abbrev confirmed : DeleteAccountRequest
confirmed = record { password = password; mfa_code = none; acknowledge = true }

delete_own_account-Deletes_example :
    Deletes toy
      (λ key. false)
      confirmed
      alice
      none
      1000
      two_accounts
      nothing_stored
      (delete_own_account toy
        (λ key. false)
        confirmed
        alice
        none
        1000
        (two_accounts, nothing_stored))
delete_own_account-Deletes_example =
    delete_own_account-Deletes toy (λ key. false) confirmed alice none 1000 two_accounts
      nothing_stored

accounts_stand : All (λ call. IsKnown call.account two_accounts) calls
unfolding any_row ℕ_discrete
accounts_stand = (refl, (refl, (refl, (refl, (refl, (refl, tt))))))

serve_all-ForeignKeys_example :
    ForeignKeys (serve_all toy int_of open_pdf calls (two_accounts, nothing_stored)).1.0
serve_all-ForeignKeys_example =
    serve_all-ForeignKeys toy int_of open_pdf calls (two_accounts, nothing_stored) keys_hold
      accounts_stand
