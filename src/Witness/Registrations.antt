-- ===== src/Witness/Registrations.antt =====
-- Examples of the theorems on tokens and registrations.
use peka_saas.Common.{◌≤◌, ◌≡◌, ◌↔◌, refl, arith, true, false, none, some, count_rows}
use peka_saas.Common.Exec.{err, is_ok}
use peka_saas.Connector.Types.{ConnectorRegistrationToken}
use peka_saas.Connector.Repository.{
  token_used, token_revoked, registration_error, count_active_for_tenant, is_active_instance,
}
use peka_saas.Connector.Tokens.{revoke_registration_token}
use peka_saas.Connector.Register.{Registration, register}
use peka_saas.Connector.Register.Refusals.{IsAdmissible, presented, register-ok_iff, register-keeps}
use peka_saas.Connector.Register.Invariants.{
  register-within_limit, register-one_instance, register_single_use, register_after_revocation,
}
use peka_saas.Witness.ConnectorData.{tenant, token, vacant, occupied, registration, request}

-- The same appliance tries again later, with no limit.
abbrev later : Registration
later = record registration { now = 600; connector_limit = none }

register-ok_iff_example :
    (is_ok (register registration request vacant).0 ≡ true)
    ↔ IsAdmissible registration request vacant.working token tenant
register-ok_iff_example = register-ok_iff registration request vacant token tenant refl refl

accepted : is_ok (register registration request vacant).0 ≡ true
unfolding register
accepted = refl

register_single_use_example :
    (t : ConnectorRegistrationToken) × (presented registration request vacant ≡ some t)
    × ((register later request (register registration request vacant).1).0
        ≡ err (
            registration_error token_used "The registration token has already been used." 410
              (some t.tenant_id)
              (some t.id)
              "token_used"))
register_single_use_example =
    register_single_use registration later request request vacant accepted refl

register-within_limit_example :
    count_active_for_tenant 1 (register registration request occupied).1.working ≤ 1
register-within_limit_example =
    register-within_limit registration request occupied 1 1 refl refl refl (omega arith)

register-one_instance_example :
    count_rows (is_active_instance 1 60) (register registration request vacant).1.working.connectors
    ≤ 1
register-one_instance_example =
    register-one_instance registration request vacant 1 60 refl refl (omega arith)

turned_away : is_ok (register registration request occupied).0 ≡ false
unfolding register
turned_away = refl

register-keeps_example :
    ((register registration request occupied).1.working.connectors ≡ occupied.working.connectors)
    × ((register registration request occupied).1.working.capabilities
        ≡ occupied.working.capabilities)
    × ((register registration request occupied).1.working
        ≡ (register registration request occupied).1.committed)
register-keeps_example = register-keeps registration request occupied refl turned_away refl

register_after_revocation_example :
    (is_ok (revoke_registration_token 1 5 2 400 vacant).0 ≡ true)
    × (r : ConnectorRegistrationToken) × ((register registration request
          (revoke_registration_token 1 5 2 400 vacant).1).0
        ≡ err (
            registration_error token_revoked "The registration token has been revoked." 410
              (some r.tenant_id)
              (some r.id)
              "token_revoked"))
register_after_revocation_example =
    register_after_revocation registration request vacant token 1 5 2 400 refl refl refl
