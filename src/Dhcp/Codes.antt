-- ===== src/Dhcp/Codes.antt =====
-- `enum dh_options` of Inc/dh_options.h.
pub mod Decode
use pdrad.Prelude.{ℕ}

pub data OptionCode : Type 0 where
  clientid serverid ia_na ia_ta iaaddr oro : OptionCode
  preference elapsed_time relay_msg auth unicast status_code : OptionCode
  rapid_commit user_class vendor_class vendor_opts interface_id reconf_msg : OptionCode
  reconf_accept sip_server_d sip_server_a dns_servers domain_list ia_pd : OptionCode
  iaprefix nis_servers nisp_servers nis_domain_name nisp_domain_name sntp_servers : OptionCode
  information_refresh_time bcmcs_server_d bcmcs_server_a geoconf_civic remote_id subscriber_id :
      OptionCode
  client_fqdn pana_agent new_posix_timezone new_tzdb_timezone ero lq_query : OptionCode
  client_data clt_time lq_relay_data lq_client_link mip6_hnidf mip6_vdinf : OptionCode
  v6_lost capwap_ac_v6 relay_id ipv6_address_mos ipv6_fqdn_mos ntp_server : OptionCode
  v6_access_domain sip_ua_cs_list opt_bootfile_url opt_bootfile_param client_arch_type nii :
      OptionCode
  geolocation aftr_name erp_local_domain_name rsoo pd_exclude vss : OptionCode
  mip6_idinf mip6_udinf mip6_hnp mip6_haa mip6_haf rdnss_selection : OptionCode
  krb_principal_name krb_realm_name krb_default_realm_name krb_kdc client_linklayer_addr
        link_address :
      OptionCode
  radius sol_max_rt inf_max_rt addrsel addrsel_table v6_pcp_server : OptionCode
  dhcpv4_msg dhcp4_o_dhcp6_server s46_rule s46_br s46_dmr s46_v4v6bind : OptionCode
  s46_portparams s46_cont_mape s46_cont_mapt s46_cont_lw option_4rd option_4rd_map_rule : OptionCode
  option_4rd_non_map_rule lq_base_time lq_start_time lq_end_time dhcp_captive_portal
        mpl_parameters :
      OptionCode
  ani_att ani_network_name ani_ap_name ani_ap_bssid ani_operator_id ani_operator_realm : OptionCode
  s46_priority mud_url_v6 v6_prefix64 f_binding_status f_connect_flags f_dns_removal_info :
      OptionCode
  f_dns_host_name f_dns_zone_name f_dns_flags f_expiration_time f_max_unacked_bndupd f_mclt :
      OptionCode
  f_partner_lifetime f_partner_lifetime_sent f_partner_down_time f_partner_raw_clt_time
        f_protocol_version f_keepalive_time :
      OptionCode
  f_reconfigure_data f_relationship_name f_server_flags f_server_state f_start_time_of_state
        f_state_expiration_time :
      OptionCode
  relay_port ipv6_address_andsf : OptionCode

abbrev pub code : OptionCode → ℕ
code OptionCode.clientid = 1
code OptionCode.serverid = 2
code OptionCode.ia_na = 3
code OptionCode.ia_ta = 4
code OptionCode.iaaddr = 5
code OptionCode.oro = 6
code OptionCode.preference = 7
code OptionCode.elapsed_time = 8
code OptionCode.relay_msg = 9
code OptionCode.auth = 11
code OptionCode.unicast = 12
code OptionCode.status_code = 13
code OptionCode.rapid_commit = 14
code OptionCode.user_class = 15
code OptionCode.vendor_class = 16
code OptionCode.vendor_opts = 17
code OptionCode.interface_id = 18
code OptionCode.reconf_msg = 19
code OptionCode.reconf_accept = 20
code OptionCode.sip_server_d = 21
code OptionCode.sip_server_a = 22
code OptionCode.dns_servers = 23
code OptionCode.domain_list = 24
code OptionCode.ia_pd = 25
code OptionCode.iaprefix = 26
code OptionCode.nis_servers = 27
code OptionCode.nisp_servers = 28
code OptionCode.nis_domain_name = 29
code OptionCode.nisp_domain_name = 30
code OptionCode.sntp_servers = 31
code OptionCode.information_refresh_time = 32
code OptionCode.bcmcs_server_d = 33
code OptionCode.bcmcs_server_a = 34
code OptionCode.geoconf_civic = 36
code OptionCode.remote_id = 37
code OptionCode.subscriber_id = 38
code OptionCode.client_fqdn = 39
code OptionCode.pana_agent = 40
code OptionCode.new_posix_timezone = 41
code OptionCode.new_tzdb_timezone = 42
code OptionCode.ero = 43
code OptionCode.lq_query = 44
code OptionCode.client_data = 45
code OptionCode.clt_time = 46
code OptionCode.lq_relay_data = 47
code OptionCode.lq_client_link = 48
code OptionCode.mip6_hnidf = 49
code OptionCode.mip6_vdinf = 50
code OptionCode.v6_lost = 51
code OptionCode.capwap_ac_v6 = 52
code OptionCode.relay_id = 53
code OptionCode.ipv6_address_mos = 54
code OptionCode.ipv6_fqdn_mos = 55
code OptionCode.ntp_server = 56
code OptionCode.v6_access_domain = 57
code OptionCode.sip_ua_cs_list = 58
code OptionCode.opt_bootfile_url = 59
code OptionCode.opt_bootfile_param = 60
code OptionCode.client_arch_type = 61
code OptionCode.nii = 62
code OptionCode.geolocation = 63
code OptionCode.aftr_name = 64
code OptionCode.erp_local_domain_name = 65
code OptionCode.rsoo = 66
code OptionCode.pd_exclude = 67
code OptionCode.vss = 68
code OptionCode.mip6_idinf = 69
code OptionCode.mip6_udinf = 70
code OptionCode.mip6_hnp = 71
code OptionCode.mip6_haa = 72
code OptionCode.mip6_haf = 73
code OptionCode.rdnss_selection = 74
code OptionCode.krb_principal_name = 75
code OptionCode.krb_realm_name = 76
code OptionCode.krb_default_realm_name = 77
code OptionCode.krb_kdc = 78
code OptionCode.client_linklayer_addr = 79
code OptionCode.link_address = 80
code OptionCode.radius = 81
code OptionCode.sol_max_rt = 82
code OptionCode.inf_max_rt = 83
code OptionCode.addrsel = 84
code OptionCode.addrsel_table = 85
code OptionCode.v6_pcp_server = 86
code OptionCode.dhcpv4_msg = 87
code OptionCode.dhcp4_o_dhcp6_server = 88
code OptionCode.s46_rule = 89
code OptionCode.s46_br = 90
code OptionCode.s46_dmr = 91
code OptionCode.s46_v4v6bind = 92
code OptionCode.s46_portparams = 93
code OptionCode.s46_cont_mape = 94
code OptionCode.s46_cont_mapt = 95
code OptionCode.s46_cont_lw = 96
code OptionCode.option_4rd = 97
code OptionCode.option_4rd_map_rule = 98
code OptionCode.option_4rd_non_map_rule = 99
code OptionCode.lq_base_time = 100
code OptionCode.lq_start_time = 101
code OptionCode.lq_end_time = 102
code OptionCode.dhcp_captive_portal = 103
code OptionCode.mpl_parameters = 104
code OptionCode.ani_att = 105
code OptionCode.ani_network_name = 106
code OptionCode.ani_ap_name = 107
code OptionCode.ani_ap_bssid = 108
code OptionCode.ani_operator_id = 109
code OptionCode.ani_operator_realm = 110
code OptionCode.s46_priority = 111
code OptionCode.mud_url_v6 = 112
code OptionCode.v6_prefix64 = 113
code OptionCode.f_binding_status = 114
code OptionCode.f_connect_flags = 115
code OptionCode.f_dns_removal_info = 116
code OptionCode.f_dns_host_name = 117
code OptionCode.f_dns_zone_name = 118
code OptionCode.f_dns_flags = 119
code OptionCode.f_expiration_time = 120
code OptionCode.f_max_unacked_bndupd = 121
code OptionCode.f_mclt = 122
code OptionCode.f_partner_lifetime = 123
code OptionCode.f_partner_lifetime_sent = 124
code OptionCode.f_partner_down_time = 125
code OptionCode.f_partner_raw_clt_time = 126
code OptionCode.f_protocol_version = 127
code OptionCode.f_keepalive_time = 128
code OptionCode.f_reconfigure_data = 129
code OptionCode.f_relationship_name = 130
code OptionCode.f_server_flags = 131
code OptionCode.f_server_state = 132
code OptionCode.f_start_time_of_state = 133
code OptionCode.f_state_expiration_time = 134
code OptionCode.relay_port = 135
code OptionCode.ipv6_address_andsf = 136
