-- ===== src/Tray/Status.antt =====
-- The text of the status dialog: `stats_text` of `handle_menu_event`.
use simple_forwarder.Prelude.{ℕ, ◌-◌, ◌/◌, ◌^◌, Bool, ◌++◌, if◌then◌else◌}
use simple_forwarder.Text.{Bytes, codes}
use simple_forwarder.Stats.{TrafficStats}
use simple_forwarder.Stats.Sizes.{format_bytes}
use simple_forwarder.Tray.Commas.{format_with_commas}
use simple_forwarder.Tray.Duration.{format_duration}

-- The arguments are the instant of the call, `get_current_memory_usage_kb`, and `is_admin`.
unfoldable pub status_text : ℕ → ℕ → Bool → TrafficStats → Bytes
status_text now mem_kb is_admin stats =
    codes "Listen Address: "
    ++ (stats.listen_addr
        ++ (codes "\nRun Time: "
            ++ (format_duration ((now - stats.start_time) / 10 ^ 9)
                ++ (codes "\nMemory Usage: "
                    ++ (format_with_commas mem_kb
                        ++ (codes " KB (Private Mapping)\n"
                            ++ ((if is_admin then codes "Privilege: Administrator\n" else codes "")
                                ++ (codes "\n- Direct Traffic -\nInbound: "
                                    ++ (format_bytes stats.direct_rx
                                        ++ (codes "\nOutbound: "
                                            ++ (format_bytes stats.direct_tx
                                                ++ (codes "\n\n- Proxy Traffic -\nInbound: "
                                                    ++ (format_bytes stats.upstream_rx
                                                        ++ (codes "\nOutbound: "
                                                            ++ format_bytes
                                                            stats.upstream_tx))))))))))))))
