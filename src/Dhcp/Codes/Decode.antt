-- ===== src/Dhcp/Codes/Decode.antt =====
-- The codes tell the options apart.
use pdrad.Prelude.{ℕ, ◌≤◌, ◌≡◌, refl, List, [], ◌∷◌, Option, none, some, if◌then◌else◌, ◌==◌, arith}
use pdrad.Dhcp.Codes.{OptionCode, code}

-- Every option, in the order of the enumeration.
abbrev options : List OptionCode
options =
    OptionCode.clientid ∷ OptionCode.serverid ∷ OptionCode.ia_na ∷ OptionCode.ia_ta
    ∷ OptionCode.iaaddr ∷ OptionCode.oro ∷ OptionCode.preference ∷ OptionCode.elapsed_time
    ∷ OptionCode.relay_msg ∷ OptionCode.auth ∷ OptionCode.unicast ∷ OptionCode.status_code
    ∷ OptionCode.rapid_commit ∷ OptionCode.user_class ∷ OptionCode.vendor_class
    ∷ OptionCode.vendor_opts ∷ OptionCode.interface_id ∷ OptionCode.reconf_msg
    ∷ OptionCode.reconf_accept ∷ OptionCode.sip_server_d ∷ OptionCode.sip_server_a
    ∷ OptionCode.dns_servers ∷ OptionCode.domain_list ∷ OptionCode.ia_pd ∷ OptionCode.iaprefix
    ∷ OptionCode.nis_servers ∷ OptionCode.nisp_servers ∷ OptionCode.nis_domain_name
    ∷ OptionCode.nisp_domain_name ∷ OptionCode.sntp_servers ∷ OptionCode.information_refresh_time
    ∷ OptionCode.bcmcs_server_d ∷ OptionCode.bcmcs_server_a ∷ OptionCode.geoconf_civic
    ∷ OptionCode.remote_id ∷ OptionCode.subscriber_id ∷ OptionCode.client_fqdn
    ∷ OptionCode.pana_agent ∷ OptionCode.new_posix_timezone ∷ OptionCode.new_tzdb_timezone
    ∷ OptionCode.ero ∷ OptionCode.lq_query ∷ OptionCode.client_data ∷ OptionCode.clt_time
    ∷ OptionCode.lq_relay_data ∷ OptionCode.lq_client_link ∷ OptionCode.mip6_hnidf
    ∷ OptionCode.mip6_vdinf ∷ OptionCode.v6_lost ∷ OptionCode.capwap_ac_v6 ∷ OptionCode.relay_id
    ∷ OptionCode.ipv6_address_mos ∷ OptionCode.ipv6_fqdn_mos ∷ OptionCode.ntp_server
    ∷ OptionCode.v6_access_domain ∷ OptionCode.sip_ua_cs_list ∷ OptionCode.opt_bootfile_url
    ∷ OptionCode.opt_bootfile_param ∷ OptionCode.client_arch_type ∷ OptionCode.nii
    ∷ OptionCode.geolocation ∷ OptionCode.aftr_name ∷ OptionCode.erp_local_domain_name
    ∷ OptionCode.rsoo ∷ OptionCode.pd_exclude ∷ OptionCode.vss ∷ OptionCode.mip6_idinf
    ∷ OptionCode.mip6_udinf ∷ OptionCode.mip6_hnp ∷ OptionCode.mip6_haa ∷ OptionCode.mip6_haf
    ∷ OptionCode.rdnss_selection ∷ OptionCode.krb_principal_name ∷ OptionCode.krb_realm_name
    ∷ OptionCode.krb_default_realm_name ∷ OptionCode.krb_kdc ∷ OptionCode.client_linklayer_addr
    ∷ OptionCode.link_address ∷ OptionCode.radius ∷ OptionCode.sol_max_rt ∷ OptionCode.inf_max_rt
    ∷ OptionCode.addrsel ∷ OptionCode.addrsel_table ∷ OptionCode.v6_pcp_server
    ∷ OptionCode.dhcpv4_msg ∷ OptionCode.dhcp4_o_dhcp6_server ∷ OptionCode.s46_rule
    ∷ OptionCode.s46_br ∷ OptionCode.s46_dmr ∷ OptionCode.s46_v4v6bind ∷ OptionCode.s46_portparams
    ∷ OptionCode.s46_cont_mape ∷ OptionCode.s46_cont_mapt ∷ OptionCode.s46_cont_lw
    ∷ OptionCode.option_4rd ∷ OptionCode.option_4rd_map_rule ∷ OptionCode.option_4rd_non_map_rule
    ∷ OptionCode.lq_base_time ∷ OptionCode.lq_start_time ∷ OptionCode.lq_end_time
    ∷ OptionCode.dhcp_captive_portal ∷ OptionCode.mpl_parameters ∷ OptionCode.ani_att
    ∷ OptionCode.ani_network_name ∷ OptionCode.ani_ap_name ∷ OptionCode.ani_ap_bssid
    ∷ OptionCode.ani_operator_id ∷ OptionCode.ani_operator_realm ∷ OptionCode.s46_priority
    ∷ OptionCode.mud_url_v6 ∷ OptionCode.v6_prefix64 ∷ OptionCode.f_binding_status
    ∷ OptionCode.f_connect_flags ∷ OptionCode.f_dns_removal_info ∷ OptionCode.f_dns_host_name
    ∷ OptionCode.f_dns_zone_name ∷ OptionCode.f_dns_flags ∷ OptionCode.f_expiration_time
    ∷ OptionCode.f_max_unacked_bndupd ∷ OptionCode.f_mclt ∷ OptionCode.f_partner_lifetime
    ∷ OptionCode.f_partner_lifetime_sent ∷ OptionCode.f_partner_down_time
    ∷ OptionCode.f_partner_raw_clt_time ∷ OptionCode.f_protocol_version
    ∷ OptionCode.f_keepalive_time ∷ OptionCode.f_reconfigure_data ∷ OptionCode.f_relationship_name
    ∷ OptionCode.f_server_flags ∷ OptionCode.f_server_state ∷ OptionCode.f_start_time_of_state
    ∷ OptionCode.f_state_expiration_time ∷ OptionCode.relay_port ∷ OptionCode.ipv6_address_andsf
    ∷ []

find : ℕ → List OptionCode → Option OptionCode
find n [] = none
find n (c ∷ cs) = if code c == n then some c else find n cs

-- The option that a number stands for.
pub decode : ℕ → Option OptionCode
unfolding find
decode n = find n options

-- No two options of `enum dh_options` have the same code, so that the option can be found from it,
-- and no code is above 136.
pub decode-code : (c : OptionCode) → (decode (code c) ≡ some c) × (code c ≤ 136)
unfolding decode
decode-code OptionCode.clientid = (refl, omega arith)
decode-code _ = (refl, omega arith)
