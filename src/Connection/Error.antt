-- ===== src/Connection/Error.antt =====
-- src/supa/connection/error.py: the predefined NSI errors, of which each is known by its `error_id`.

pub data NsiError : Type 0 where
  generic_message_pay_load_error missing_parameter unsupported_parameter not_implemented : NsiError
  version_not_supported generic_connection_error invalid_transition : NsiError
  reservation_non_existent generic_security_error unauthorized generic_metadata_error : NsiError
  domain_lookup_error nsa_lookup_error no_serviceplane_path_found : NsiError
  generic_internal_error child_segment_error message_delivery_error : NsiError
  generic_resource_unavailable generic_service_error unknown_stp : NsiError
  label_swapping_not_supported stp_unavailable capacity_unavailable : NsiError
  directionality_mismatch invalid_ero_member unknown_label_type invalid_label_format : NsiError
  no_transportplane_path_found generic_rm_error : NsiError
